-- ===== src/Util/Blob.antt =====
-- `load_blob` of boot/util.c, and what the reads of a file give.
use mathlib.Core.List.{append_assoc, append-nil}
use midas_util.Base.{
  ℕ, zero, suc, ◌+◌, ◌<◌, ◌≤◌, ◌≡◌, refl, ap, sym, ◌∙◌, true, false, some, List, [], ◌∷◌, ◌++◌,
  Bytes, ok, fault, length, length-append, take, drop, take-append, drop_all, length-take,
  length-drop, leb, leb→le, arith, Bool-cases, inl, inr,
}
use midas_util.Util.{ReadResult, bytes, File, Os, overwrite, read_blob, load_blob}

-- The answers of `read` are the bytes of `content`, in pieces that are not empty, and the end.
pub data Reads : List ReadResult → Bytes → Type 0 where
  eof : Reads [] []
  piece :
      {c : ℕ} {cs : Bytes} {rs : List ReadResult} {content : Bytes}
      → Reads rs content
      → Reads (bytes (c ∷ cs) ∷ rs) ((c ∷ cs) ++ content)

le→leb : (a b : ℕ) → a ≤ b → leb a b ≡ true
le→leb a b h = ground arith

lt→not_leb : (a b : ℕ) → b < a → leb a b ≡ false
lt→not_leb a b h = ground arith

suc-add : (a b : ℕ) → suc a + b ≡ suc (a + b)
suc-add a b = omega arith

drop-add : (p : Bytes) (n : ℕ) (m : Bytes) → drop (length p + n) (p ++ m) ≡ drop n m
drop-add [] n m = ap (λ (k : ℕ). drop k m) (omega arith)
drop-add (c ∷ p) n m = rw (suc-add (length p) n) (drop-add p n m)

drop-drop : (n k : ℕ) (m : Bytes) → drop k (drop n m) ≡ drop (n + k) m
drop-drop zero k m = ap (λ (j : ℕ). drop j m) (omega arith)
drop-drop (suc n) zero [] = rw (suc-add n 0)
drop-drop (suc n) (suc k) [] = rw (suc-add n (suc k))
drop-drop (suc n) k (c ∷ m) = rw (suc-add n k) (drop-drop n k m)

-- A piece that fits goes behind what was read before.
overwrite-append :
    (pre new mid : Bytes)
    → overwrite (length pre) new (pre ++ mid) ≡ pre ++ (new ++ drop (length new) mid)
unfolding overwrite
overwrite-append pre new mid =
    rw (take-append pre mid) (ap (λ (t : Bytes). pre ++ (new ++ t)) (drop-add pre (length new) mid))

pub length-overwrite :
    (off : ℕ) (new buf : Bytes)
    → off + length new ≤ length buf
    → length (overwrite off new buf) ≡ length buf
unfolding overwrite
length-overwrite off new buf h = omega (
  arith,
  length-append {0} (take off buf) (new ++ drop (off + length new) buf),
  length-append {0} new (drop (off + length new) buf),
  length-take {0} off buf,
  length-drop {0} (off + length new) buf,
)

regroup : (a b c d : Bytes) → (a ++ b) ++ (c ++ d) ≡ a ++ ((b ++ c) ++ d)
regroup a b c d = append_assoc a b (c ++ d) ∙ ap (λ (t : Bytes). a ++ t) (sym (append_assoc b c d))

read_blob-Reads :
    {rs : List ReadResult} {content : Bytes} (pre mid : Bytes)
    → Reads rs content
    → length content ≤ length mid
    → read_blob rs (length pre) (pre ++ mid)
      ≡ ok (true, pre ++ (content ++ drop (length content) mid))
unfolding read_blob
read_blob-Reads pre mid eof h = refl
read_blob-Reads pre mid (piece {c} {cs} {rs} {content} r) h =
    let new : Bytes = c ∷ cs in
    let total = length-append {0} new content in
    let left = drop (length new) mid in
    let ih =
      read_blob-Reads {rs = rs} {content = content} (pre ++ new) left r
        (omega (arith, length-drop {0} (length new) mid)) in
    let ih' =
      rw
        (
          length-append pre new,
          append_assoc pre new left,
          drop-drop (length new) (length content) mid,
        )
        at ih in
    rw
      (
        le→leb (length pre + length new) (length (pre ++ mid))
            (omega (arith, length-append {0} pre mid)),
        overwrite-append pre new mid,
      )
      (ih'
        ∙ ap (λ (t : Bytes). ok (true, t))
            (regroup pre new content (drop (length new + length content) mid))
        ∙ ap (λ (k : ℕ). ok (true, pre ++ ((new ++ content) ++ drop k mid))) (sym total))

-- More bytes than the buffer holds: the loop writes behind it.
read_blob_overrun :
    {rs : List ReadResult} {content : Bytes} (cur : ℕ) (buf : Bytes)
    → Reads rs content
    → cur ≤ length buf
    → length buf < cur + length content
    → read_blob rs cur buf ≡ fault
unfolding read_blob
read_blob_overrun cur buf eof h k = absurd (omega arith)
read_blob_overrun cur buf (piece {c} {cs} {rs} {content} r) h k =
    let new : Bytes = c ∷ cs in
    elim (Bool-cases (leb (cur + length new) (length buf))) [
      | inl e ↦
          (let fits = leb→le (cur + length new) (length buf) e in
            let same = length-overwrite cur new buf fits in
            rw e (
              read_blob_overrun {rs = rs} {content = content} (cur + length new)
                (overwrite cur new buf) r (omega arith)
                (omega (arith, length-append {0} new content))))
      | inr e ↦ rw e
    ]

module _ (os : Os) (f : File) {content junk : Bytes} (reads : Reads f.reads content)
    (seeks : f.seek_set ≡ true) (n : ℕ) (sized : f.seek_end ≡ some n)
    (allocated : os.malloc n ≡ some junk) (room : length junk ≡ n) where
  -- If both calls of `lseek` and `malloc` succeed, and the reads give as many bytes as `lseek`
  -- told, up to the end of the file, then `load_blob` returns those bytes and their number.
  pub load_blob-content : length content ≡ n → load_blob os f ≡ ok (some content, some n)
  unfolding load_blob
  load_blob-content e =
      rw (sized, seeks, allocated, read_blob-Reads {content = content} [] junk reads (omega arith))
        (ap (λ (t : Bytes). ok (some t, some n))
          (ap (λ (t : Bytes). content ++ t) (drop_all (length content) junk (omega arith))
            ∙ append-nil content))

  -- If both calls of `lseek` and `malloc` succeed, and the reads give more bytes than `lseek`
  -- told, `load_blob` writes behind its buffer.
  pub load_blob_overrun : n < length content → load_blob os f ≡ fault
  unfolding load_blob
  load_blob_overrun lt =
      rw (sized, seeks, allocated, read_blob_overrun 0 junk reads (omega arith) (omega arith))
