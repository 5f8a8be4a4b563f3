-- ===== src/Tools/Tests.antt =====
-- blank.c and reboot.c on small machines.
use midas_util.Base.{ℕ, suc, ◌-◌, if◌then◌else◌, ◌≡◌, refl, [], ◌∷◌, codes}
use midas_util.Base.Ints.{ℤ, negative, pos, negsuc}
use midas_util.Tools.{
  Blanking, unblank, normal, Screen, blank, blank_on, blank_off, sync, restart, reboot,
}
use midas_util.Tools.Blank.{Documented, End, blank-End}

-- A screen that can be blanked, and not unblanked; the state is the picture and the descriptors.
abbrev switch_off : Blanking → Blanking × ℕ → ℤ × (Blanking × ℕ)
switch_off unblank (p, n) = (negsuc 0, (p, n))
switch_off normal (p, n) = (pos 0, (normal, n))

abbrev stuck : Screen
stuck = record {
  State = Blanking × ℕ;
  open_fb = λ (p, n). (pos 3, (p, suc n));
  ioctl_blank = λ fd b s. switch_off b s;
  close = λ fd (p, n). (p, n - 1);
}

stuck-Documented : Documented stuck (λ s. s.0) (λ s. s.1)
stuck-Documented = record {
  open_shown = λ s. refl;
  open_fds = λ s. refl;
  ioctl_shown = shown;
  ioctl_fds = fds;
  close_shown = λ fd s. refl;
  close_fds = λ fd s. refl;
}
  where
    shown :
        (fd : ℤ) (b : Blanking) (s : Blanking × ℕ)
        → (switch_off b s).1.0 ≡ (if negative (switch_off b s).0 then s.0 else b)
    shown fd unblank s = refl
    shown fd normal s = refl

    fds : (fd : ℤ) (b : Blanking) (s : Blanking × ℕ) → (switch_off b s).1.1 ≡ s.1
    fds fd unblank s = refl
    fds fd normal s = refl

run_stuck : blank stuck (unblank, 5) ≡ (pos 3, (normal, 6))
unfolding blank blank_on blank_off
run_stuck = refl

blank-End_example :
    End stuck
      (λ s. s.0)
      (λ s. s.1)
      (unblank, 5)
      (blank stuck (unblank, 5)).1
      (blank stuck (unblank, 5)).0
blank-End_example = blank-End stuck (λ s. s.0) (λ s. s.1) stuck-Documented (unblank, 5)

reboot_recovery :
    reboot (codes "reboot" ∷ codes "recovery" ∷ [])
    ≡ (pos 0, sync ∷ restart (codes "recovery") ∷ [])
unfolding reboot
reboot_recovery = refl
