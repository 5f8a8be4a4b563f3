-- ===== src/Tools/Blank.antt =====
-- What blank.c leaves behind.
use midas_util.Base.{ℕ, suc, ◌-◌, ◌≡◌, ◌∙◌, Bool-cases, inl, inr, if◌then◌else◌, arith}
use midas_util.Base.Ints.{ℤ, pos, negative}
use midas_util.Tools.{Blanking, unblank, normal, Screen, blank_off, blank_on, blank}

module _ (screen : Screen) where
  open screen use {State, open_fb, ioctl_blank, close}

  -- What the calls are documented to do to the picture and to the number of open descriptors: a
  -- call that fails changes neither.
  pub record Documented (shown : State → Blanking) (fds : State → ℕ) : Type 0 where
    pub open_shown : (s : State) → shown (open_fb s).1 ≡ shown s
    pub open_fds :
        (s : State) → fds (open_fb s).1 ≡ (if negative (open_fb s).0 then fds s else suc (fds s))
    pub ioctl_shown :
        (fd : ℤ) (b : Blanking) (s : State)
        → shown (ioctl_blank fd b s).1 ≡ (if negative (ioctl_blank fd b s).0 then shown s else b)
    pub ioctl_fds : (fd : ℤ) (b : Blanking) (s : State) → fds (ioctl_blank fd b s).1 ≡ fds s
    pub close_shown : (fd : ℤ) (s : State) → shown (close fd s) ≡ shown s
    pub close_fds : (fd : ℤ) (s : State) → fds (close fd s) ≡ fds s - 1

  -- The ends of blank.c: nothing was opened; the screen was not blanked; it stays blank; it is on.
  pub data End (shown : State → Blanking) (fds : State → ℕ) (s t : State) : ℤ → Type 0 where
    not_opened : shown t ≡ shown s → fds t ≡ fds s → End shown fds s t (pos 1)
    not_blanked : shown t ≡ shown s → fds t ≡ suc (fds s) → End shown fds s t (pos 2)
    stays_blank : shown t ≡ normal → fds t ≡ suc (fds s) → End shown fds s t (pos 3)
    shown_again : shown t ≡ unblank → fds t ≡ fds s → End shown fds s t (pos 0)

  module _ (shown : State → Blanking) (fds : State → ℕ) (doc : Documented shown fds)
      (s : State) where
    blank_off-End :
        (fd : ℤ) (s1 : State)
        → shown s1 ≡ normal
        → fds s1 ≡ suc (fds s)
        → End shown fds s (blank_off screen (fd, s1)).1 (blank_off screen (fd, s1)).0
    unfolding blank_off
    blank_off-End fd s1 is n =
        let r = ioctl_blank fd unblank s1 in
        let p = doc.ioctl_shown fd unblank s1 in
        let q = doc.ioctl_fds fd unblank s1 ∙ n in
        elim (Bool-cases (negative r.0)) [
          | inl e ↦ rw e (stays_blank (rw e at p ∙ is) q)
          | inr e ↦ rw e (
              shown_again (doc.close_shown fd r.1 ∙ rw e at p)
                (omega (arith, doc.close_fds fd r.1, q)))
        ]

    blank_on-End :
        (fd : ℤ) (s1 : State)
        → shown s1 ≡ shown s
        → fds s1 ≡ suc (fds s)
        → End shown fds s (blank_on screen (fd, s1)).1 (blank_on screen (fd, s1)).0
    unfolding blank_on
    blank_on-End fd s1 same n =
        let r = ioctl_blank fd normal s1 in
        let p = doc.ioctl_shown fd normal s1 in
        let q = doc.ioctl_fds fd normal s1 ∙ n in
        elim (Bool-cases (negative r.0)) [
          | inl e ↦ rw e (not_blanked (rw e at p ∙ same) q)
          | inr e ↦ rw e (blank_off-End fd r.1 (rw e at p) q)
        ]

    -- If the kernel behaves as documented, blank.c ends in one of four ways, which its code
    -- tells: 1 with picture and descriptors as they were; 2 with the picture as it was and one
    -- descriptor more; 3 with the screen left blank and one descriptor more; 0 with the picture
    -- on and the descriptors as they were.
    pub blank-End : End shown fds s (blank screen s).1 (blank screen s).0
    unfolding blank
    blank-End =
        let p = doc.open_fds s in
        elim (Bool-cases (negative (open_fb s).0)) [
          | inl e ↦ rw e (not_opened (doc.open_shown s) (rw e at p))
          | inr e ↦ rw e (blank_on-End (open_fb s).0 (open_fb s).1 (doc.open_shown s) (rw e at p))
        ]
