-- ===== src/Ufdt/Success.antt =====
-- What `apply_overlays` of boot/ufdt.c returns where the overlays can be applied.
use midas_util.Base.{ℕ, ◌≡◌, refl, Option, some, List, [], ◌∷◌, Bytes, ok, length}
use midas_util.Config.{GlobalConfig, OverlayCfg}
use midas_util.Util.Stored.{Holds, overlay_path, load_overlay-Holds}
use midas_util.Ufdt.{Libfdt, Machine, apply_one, apply_loaded}
use midas_util.Ufdt.Overlays.{apply_each}

module _ (fdt : Libfdt) where
  open fdt use {Blob, apply_overlay, totalsize}

  -- The overlays are there and can be applied one after the other, from a tree and its size to
  -- a tree and its size.
  pub data Applied (m : Machine) (cfg : GlobalConfig) (last : Blob) (size : ℕ)
      : List OverlayCfg → Option Blob × ℕ → Type 0 where
    all_applied : Applied m cfg last size [] (some last, size)
    apply :
        {o : OverlayCfg} {os : List OverlayCfg} {t : Option Blob} {n : ℕ} {content : Bytes}
        {new : Blob}
        → Holds m.os (overlay_path cfg o) content
        → apply_overlay t n content (length content) ≡ some new
        → Applied m cfg last size os (some new, totalsize new)
        → Applied m cfg last size (o ∷ os) (t, n)

  pub apply_each-Applied :
      (m : Machine) (cfg : GlobalConfig) {last : Blob} {size : ℕ} {os : List OverlayCfg}
      {s : Option Blob × ℕ}
      → Applied m cfg last size os s
      → apply_each fdt m cfg os s ≡ ok (some last, size)
  unfolding apply_each apply_one apply_loaded
  apply_each-Applied m cfg all_applied = refl
  apply_each-Applied m cfg (apply {o} h e a) =
      rw (load_overlay-Holds m.os cfg o h, e) (apply_each-Applied m cfg a)
