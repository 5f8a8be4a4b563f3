-- ===== src/Llist.antt =====
-- boot/llist.c and audio/llist.c: singly linked lists of `void *` on an explicit heap. The two
-- files differ in one line of `listNext`. A loop runs on fuel; `fault` also stands for fuel that
-- ran out.
pub mod Chain
pub mod Append
pub mod Visit
pub mod Termination
pub mod Free
pub mod Supply
use midas_util.Base.{
  ℕ, zero, suc, Option, none, some, List, [], ◌∷◌, Run, ok, fault, if◌then◌else◌, ◌==◌,
}

abbrev pub Ptr : Type 0
Ptr = ℕ

abbrev pub null : Ptr
null = 0

-- `struct node`
pub record Node (A : Type 0) : Type 0 where
  pub next : Ptr
  pub val : A

abbrev pub node : {A : Type 0} → Ptr → A → Node A
node p v = record { next = p; val = v }

abbrev pub Heap : Type 0 → Type 0
Heap A = Ptr → Option (Node A)

module _ {A : Type 0} where
  unfoldable pub write : Heap A → Ptr → Option (Node A) → Heap A
  write h p c q = if q == p then c else h q

abbrev pub Cmd : Type 0 → Type 0 → Type 0
Cmd A B = Heap A → Run (B × Heap A)

module _ {A B C : Type 0} where
  abbrev pub and_then : Run (B × Heap A) → (B → Cmd A C) → Run (C × Heap A)
  and_then fault f = fault
  and_then (ok (b, g)) f = f b g

  infixl 5 ◌>>=◌
  abbrev pub ◌>>=◌ : Cmd A B → (B → Cmd A C) → Cmd A C
  m >>= f = λ h. and_then (m h) f

module _ {A : Type 0} where
  abbrev pub pure : {B : Type 0} → B → Cmd A B
  pure b h = ok (b, h)

  abbrev store : Ptr → Option (Node A) → Cmd A (Unit {0})
  store p c h = ok (tt, write h p c)

  -- `*p`: a fault at NULL and at an address that holds no node
  unfoldable pub load : Ptr → Cmd A (Node A)
  load p h = if p == null then fault else elim (h p) [ none ↦ fault | some n ↦ ok (n, h) ]

  -- The address that `calloc` or `malloc` returns is an argument, and may be NULL: a write
  -- through it is a fault then.
  unfoldable pub assign : Ptr → Node A → Cmd A (Unit {0})
  assign p n h = if p == null then fault else ok (tt, write h p (some n))

  unfoldable pub free : Ptr → Cmd A (Unit {0})
  free p = do _ ← load p; store p none

  pub list_create : Ptr → A → Cmd A Ptr
  list_create head val = do _ ← assign head (node null val); pure head

  -- boot/llist.c: NULL for `cur` asks for the second node
  pub list_next_boot : Ptr → Ptr → Cmd A Ptr
  list_next_boot head cur = do n ← load (if cur == null then head else cur); pure n.next

  -- audio/llist.c: NULL for `cur` asks for the first node
  pub list_next_audio : Ptr → Ptr → Cmd A Ptr
  list_next_audio head cur = if cur == null then pure head else (do n ← load cur; pure n.next)

  pub list_get : Ptr → Cmd A A
  list_get p = do n ← load p; pure n.val

  -- `while (cur->next != NULL) cur = cur->next;`
  pub last_node : ℕ → Ptr → Cmd A Ptr
  last_node zero cur = λ h. fault
  last_node (suc k) cur = do n ← load cur; if n.next == null then pure cur else last_node k n.next

  pub list_append : ℕ → Ptr → Ptr → A → Cmd A (Unit {0})
  list_append k head new what = do
    cur ← last_node k head
    _ ← assign new (node null what)
    n ← load cur
    assign cur (node new n.val)

  -- `while (cur != NULL) { free(tmp); tmp = cur; cur = cur->next; } free(tmp);`
  pub free_nodes : ℕ → Ptr → Ptr → Cmd A (Unit {0})
  free_nodes zero tmp cur = λ h. fault
  free_nodes (suc k) tmp cur =
      if cur == null then free tmp else (do _ ← free tmp; n ← load cur; free_nodes k cur n.next)

  pub list_free : ℕ → Ptr → Cmd A (Unit {0})
  list_free k head = do n ← load head; free_nodes k head n.next

  -- The loops over a list: boot's run `n = head; while (n != NULL) { use(listGet(n)); n =
  -- listNext(head, n); }`. The values in the order in which the loop meets them.
  pub visit_boot : ℕ → Ptr → Ptr → Cmd A (List A)
  visit_boot zero head n = λ h. fault
  visit_boot (suc k) head n =
      if n == null
      then pure []
      else (do v ← list_get n; n' ← list_next_boot head n; vs ← visit_boot k head n'; pure (v ∷ vs))

  -- audio's run `n = NULL; while ((n = listNext(head, n)) != NULL) use(listGet(n));`.
  pub visit_audio : ℕ → Ptr → Ptr → Cmd A (List A)
  visit_audio zero head n = λ h. fault
  visit_audio (suc k) head n = do
    n' ← list_next_audio head n
    if n' == null then pure [] else (do v ← list_get n'; vs ← visit_audio k head n'; pure (v ∷ vs))
