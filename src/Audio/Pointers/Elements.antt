-- ===== src/Audio/Pointers/Elements.antt =====
-- The elements that expat reports to audio/xml.c, on memory and on the lists of values.
use midas_util.Base.{
  ℕ, suc, ◌≤◌, ◌<◌, ◌≡◌, refl, sym, ap, Option, none, some, List, [], ◌∷◌, ok, ◌++◌, >>=-eq-ok,
  deref, ok-injective, if◌then◌else◌, arith, Bool-cases, inl, inr, Bytes, Run,
}
use midas_util.Base.Ints.{ℤ, pos, nonzero}
use midas_util.Llist.{Ptr}
use midas_util.Llist.Chain.{Cells}
use midas_util.Audio.{
  ParserData, ListRef, find_list, open_list, open_path, start_path, add_ctl, start_ctl,
  start_device, config_start, config_end, matches, attribute, new_widget, append_widget,
}
use midas_util.Audio.Pointers.{
  Memory, ParserAt, ListAddr, field_addr, open_list_at, open_path_at, start_path_at, start_ctl_at,
  start_device_at, config_start_at, config_end_at,
}
use midas_util.Audio.Pointers.Stored.{Represents}
use midas_util.Audio.Pointers.Search.{SameList, find_list_at_lem}
use midas_util.Audio.Pointers.Update.{IsFree, Uses, append_widget_at_lem}
use midas_util.Audio.Pointers.Create.{create_setting_lem}

-- The parser's data on memory, and on the lists of values; no list is longer than the bound.
pub record Same (n : ℕ) (d : ParserAt) (e : ParserData) : Type 0 where
  pub owner : Ptr → ℕ
  pub bound : ℕ
  pub cells : Cells Ptr
  pub mem : Represents d.mem owner bound cells e.cfg
  pub below : bound ≤ n
  pub device : d.cur_device ≡ e.cur_device
  pub state : d.cur_state ≡ e.cur_state
  pub list : SameList cells e.cur_widget_list d.cur_widget_list

-- What an operation on memory gives where the one on the lists of values gives `e'`.
abbrev Step : ℕ → Ptr → Ptr → ParserAt → Run ParserAt → ParserData → Type 0
Step n new_node new_object d r e' =
    (d' : ParserAt) × (r ≡ ok d') × Same n d' e' × Uses new_node new_object d.mem d'.mem

nothing_used : (new_node new_object : Ptr) (m : Memory) → Uses new_node new_object m m
nothing_used new_node new_object m = record {
  nodes = λ a n e. e;
  settings = λ p n e. e;
  widgets = λ p n e. e;
}

module _ (k : ℕ) (new_node new_object : Ptr) (n : ℕ) (fuel : n < k) where
  open_list_at_lem :
      (d : ParserAt) (e : ParserData) (s : Same n d e) (ref : Option ListRef)
      (addr : Option ListAddr) {e' : ParserData}
      → IsFree d.mem new_node new_object
      → SameList s.cells ref addr
      → open_list e ref ≡ ok e'
      → Step (suc n) new_node new_object d (open_list_at k new_node new_object d addr) e'
  unfolding open_list open_list_at
  open_list_at_lem d e s none (some addr) free same q = absurd same
  open_list_at_lem d e s (some ref) none free same q = absurd same
  open_list_at_lem d e s (some ref) (some addr) free same q =
      let b = s.below in
      (
        record d { cur_widget_list = some addr },
        refl,
        rw (sym (ok-injective q)) (record {
          owner = s.owner;
          bound = s.bound;
          cells = s.cells;
          mem = s.mem;
          below = omega arith;
          device = s.device;
          state = s.state;
          list = same;
        }),
        nothing_used new_node new_object d.mem,
      )
  open_list_at_lem d e s none none free same q =
      let b = s.below in
      let (name, there, rest) = >>=-eq-ok (deref e.cur_device) _ q in
      let there' : deref d.cur_device ≡ ok name = rw s.device there in
      let (m', owner', made, r', uses, place) =
        create_setting_lem k new_node new_object d.mem name free s.mem (omega arith) in
      (
        record d { mem = m'; cur_widget_list = some (field_addr new_object (nonzero d.cur_state)) },
        rw (there', made),
        rw (sym (ok-injective rest)) (record {
          owner = owner';
          bound = suc s.bound;
          cells = s.cells ++ (new_node, new_object) ∷ [];
          mem = r';
          below = omega arith;
          device = s.device;
          state = s.state;
          list = (place, ap nonzero (sym s.state));
        }),
        uses,
      )

  open_path_at_lem :
      (d : ParserAt) (e : ParserData) (s : Same n d e) {e' : ParserData}
      → IsFree d.mem new_node new_object
      → open_path e ≡ ok e'
      → Step (suc n) new_node new_object d (open_path_at k new_node new_object d) e'
  open_path_at_lem d e s free q =
      let b = s.below in
      let (addr, found, same) =
        find_list_at_lem k d s.owner s.bound s.cells e.cfg s.mem (omega arith) d.cur_device in
      let same' : SameList s.cells (find_list e) addr = rw (sym s.state, sym s.device) same in
      rw found (open_list_at_lem d e s (find_list e) addr free same' q)

  start_path_at_lem :
      (d : ParserAt) (e : ParserData) (s : Same n d e) (name : Option Bytes) {e' : ParserData}
      → IsFree d.mem new_node new_object
      → start_path e name ≡ ok e'
      → Step (suc n) new_node new_object d (start_path_at k new_node new_object d name) e'
  unfolding start_path start_path_at
  start_path_at_lem d e s none free q = open_path_at_lem d e s free q
  start_path_at_lem d e s (some name) free q =
      let st : ℤ = if matches name "on" then pos 1 else pos 0 in
      open_path_at_lem (record d { cur_state = st }) (record e { cur_state = st })
        (record {
          owner = s.owner;
          bound = s.bound;
          cells = s.cells;
          mem = s.mem;
          below = s.below;
          device = s.device;
          state = refl;
          list = s.list;
        })
        free q

  later : (d : ParserAt) (e : ParserData) → Same n d e → Same (suc n) d e
  later d e s = record {
    owner = s.owner;
    bound = s.bound;
    cells = s.cells;
    mem = s.mem;
    below = (let b = s.below in omega arith);
    device = s.device;
    state = s.state;
    list = s.list;
  }

  unchanged :
      (d : ParserAt) (e : ParserData) {e' : ParserData}
      → Same n d e
      → ok e ≡ ok e'
      → Step (suc n) new_node new_object d (ok d) e'
  unchanged d e s q =
      (d, refl, rw (sym (ok-injective q)) (later d e s), nothing_used new_node new_object d.mem)

  add_ctl_at_lem :
      (d : ParserAt) (e : ParserData) (s : Same n d e) (name val : Bytes) (ref : Option ListRef)
      (addr : Option ListAddr) {e' : ParserData}
      → IsFree d.mem new_node new_object
      → SameList s.cells ref addr
      → add_ctl e name val ref ≡ ok e'
      → Step
          (suc n)
          new_node
          new_object
          d
          (start_ctl_at k new_node new_object d (some name) (some val) addr)
          e'
  unfolding add_ctl start_ctl_at
  add_ctl_at_lem d e s name val none none free same q = unchanged d e s q
  add_ctl_at_lem d e s name val none (some addr) free same q = absurd same
  add_ctl_at_lem d e s name val (some ref) none free same q = absurd same
  add_ctl_at_lem d e s name val (some ref) (some addr) free same q =
      let b = s.below in
      let (cfg', made, rest) = >>=-eq-ok (append_widget e.cfg ref (new_widget name val)) _ q in
      let (m', owner', made', r', uses) =
        append_widget_at_lem k new_node new_object d.mem (new_widget name val) free s.mem
          (omega arith) ref addr same made in
      (
        record d { mem = m' },
        rw made' refl,
        rw (sym (ok-injective rest)) (record {
          owner = owner';
          bound = suc s.bound;
          cells = s.cells;
          mem = r';
          below = omega arith;
          device = s.device;
          state = s.state;
          list = s.list;
        }),
        uses,
      )

  start_ctl_at_lem :
      (d : ParserAt) (e : ParserData) (s : Same n d e) (name val : Option Bytes) {e' : ParserData}
      → IsFree d.mem new_node new_object
      → start_ctl e name val ≡ ok e'
      → Step
          (suc n)
          new_node
          new_object
          d
          (start_ctl_at k new_node new_object d name val d.cur_widget_list)
          e'
  unfolding start_ctl start_ctl_at
  start_ctl_at_lem d e s none val free q = unchanged d e s q
  start_ctl_at_lem d e s (some name) none free q = unchanged d e s q
  start_ctl_at_lem d e s (some name) (some val) free q =
      add_ctl_at_lem d e s name val e.cur_widget_list d.cur_widget_list free s.list q

  start_device_at_lem :
      (d : ParserAt) (e : ParserData) (name : Option Bytes)
      → Same n d e
      → Same (suc n) (start_device_at d name) (start_device e name)
  unfolding start_device start_device_at
  start_device_at_lem d e none s = later d e s
  start_device_at_lem d e (some name) s = record {
    owner = s.owner;
    bound = s.bound;
    cells = s.cells;
    mem = s.mem;
    below = (let b = s.below in omega arith);
    device = refl;
    state = s.state;
    list = s.list;
  }

  start_device-Uses :
      (d : ParserAt) (name : Option Bytes)
      → Uses new_node new_object d.mem (start_device_at d name).mem
  unfolding start_device_at
  start_device-Uses d none = nothing_used new_node new_object d.mem
  start_device-Uses d (some name) = nothing_used new_node new_object d.mem

  -- `config_start` on memory does what it does on the lists of values.
  pub config_start_at_lem :
      (d : ParserAt) (e : ParserData) (s : Same n d e) (elem : Bytes) (attr : List (Bytes × Bytes))
      {e' : ParserData}
      → IsFree d.mem new_node new_object
      → config_start e elem attr ≡ ok e'
      → Step (suc n) new_node new_object d (config_start_at k new_node new_object d elem attr) e'
  unfolding config_start config_start_at
  config_start_at_lem d e s elem attr free q = elim (Bool-cases (matches elem "path")) [
    | inl a ↦ rw a (start_path_at_lem d e s (attribute "name" attr) free (rw a at q))
    | inr a ↦ elim (Bool-cases (matches elem "device")) [
      | inl b ↦
          rw (a, b)
            (
              start_device_at d (attribute "name" attr),
              refl,
              rw (sym (ok-injective (rw (a, b) at q)))
                  (start_device_at_lem d e (attribute "name" attr) s),
              start_device-Uses d (attribute "name" attr),
            )
      | inr b ↦ elim (Bool-cases (matches elem "ctl")) [
        | inl c ↦
            rw (a, b, c)
              (start_ctl_at_lem d e s (attribute "name" attr) (attribute "val" attr) free
                (rw (a, b, c) at q))
        | inr c ↦ rw (a, b, c) (unchanged d e s (rw (a, b, c) at q))
      ]
    ]
  ]

pub config_end_at_lem :
    (n : ℕ) (d : ParserAt) (e : ParserData) (elem : Bytes)
    → Same n d e
    → Same n (config_end_at d elem) (config_end e elem) × ((config_end_at d elem).mem ≡ d.mem)
unfolding config_end config_end_at
config_end_at_lem n d e elem s = elim (Bool-cases (matches elem "path")) [
  | inl a ↦ (
    rw a (record {
      owner = s.owner;
      bound = s.bound;
      cells = s.cells;
      mem = s.mem;
      below = s.below;
      device = s.device;
      state = refl;
      list = tt;
    }),
    rw a refl,
  )
  | inr a ↦ elim (Bool-cases (matches elem "device")) [
    | inl b ↦ (
      rw (a, b)
          (record {
            owner = s.owner;
            bound = s.bound;
            cells = s.cells;
            mem = s.mem;
            below = s.below;
            device = refl;
            state = s.state;
            list = s.list;
          }),
      rw (a, b) refl,
    )
    | inr b ↦ (rw (a, b) s, rw (a, b) refl)
  ]
]
