-- ===== src/Llist/Visit.antt =====
-- The loops over a list, as boot/ and audio/ write them.
use midas_util.Base.{ℕ, zero, suc, ◌<◌, ◌≡◌, refl, ok, length, arith}
use midas_util.Llist.{
  Ptr, null, Heap, list_get, list_next_boot, list_next_audio, visit_boot, visit_audio,
}
use midas_util.Llist.Chain.{Cells, values, Holds, Chain, end, link, is_null, load_lem}

module _ {A : Type 0} {h : Heap A} where
  pub list_get_lem : {p q : Ptr} {v : A} → Holds h p q v → list_get p h ≡ ok (v, h)
  unfolding list_get
  list_get_lem s = rw (load_lem s)

  pub list_next_boot_lem :
      {p q : Ptr} {v : A} (head : Ptr) → Holds h p q v → list_next_boot head p h ≡ ok (q, h)
  unfolding list_next_boot
  list_next_boot_lem head s = rw (is_null s, load_lem s)

  pub list_next_audio_lem :
      {p q : Ptr} {v : A} (head : Ptr) → Holds h p q v → list_next_audio head p h ≡ ok (q, h)
  unfolding list_next_audio
  list_next_audio_lem head s = rw (is_null s, load_lem s)

  pub list_next_audio_first : (head : Ptr) → list_next_audio head null h ≡ ok (head, h)
  unfolding list_next_audio
  list_next_audio_first head = refl

  -- The loop of boot/ over a list, started at its first node, with fuel of more than the list's
  -- length, meets the values of the list in order, and changes nothing.
  pub visit_boot-values :
      (k : ℕ) (head : Ptr) {p : Ptr} {xs : Cells A}
      → Chain h p xs
      → length xs < k
      → visit_boot k head p h ≡ ok (values xs, h)
  unfolding visit_boot
  visit_boot-values zero head c f = absurd (omega arith)
  visit_boot-values (suc k) head end f = refl
  visit_boot-values (suc k) head (link s out c) f = rw (
    is_null s,
    list_get_lem s,
    list_next_boot_lem head s,
    visit_boot-values k head c (omega arith),
  )

  visit_rest :
      (k : ℕ) (head : Ptr) {p q : Ptr} {v : A} {xs : Cells A}
      → Holds h p q v
      → Chain h q xs
      → length xs < k
      → visit_audio k head p h ≡ ok (values xs, h)
  unfolding visit_audio
  visit_rest zero head s c f = absurd (omega arith)
  visit_rest (suc k) head s end f = rw (list_next_audio_lem head s)
  visit_rest (suc k) head s (link t out c) f =
      rw
        (list_next_audio_lem head s, is_null t, list_get_lem t, visit_rest k head t c (omega arith))

  -- The loop of audio/ over a list, started at NULL, with fuel of more than the list's length,
  -- meets the values of the list in order, and changes nothing.
  pub visit_audio-values :
      {head : Ptr} {xs : Cells A} (k : ℕ)
      → Chain h head xs
      → length xs < k
      → visit_audio k head null h ≡ ok (values xs, h)
  unfolding visit_audio list_next_audio
  visit_audio-values zero c f = absurd (omega arith)
  visit_audio-values (suc k) end f = refl
  visit_audio-values (suc k) (link {p} s out c) f =
      rw (is_null s, list_get_lem s, visit_rest k p s c (omega arith))
