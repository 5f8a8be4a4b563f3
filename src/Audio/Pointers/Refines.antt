-- ===== src/Audio/Pointers/Refines.antt =====
-- audio/xml.c on memory and on the lists of values.
use midas_util.Base.{
  ℕ, suc, ◌+◌, ◌≤◌, ◌<◌, ◌≡◌, ◌≢◌, refl, sym, some, List, [], ◌∷◌, ok, >>=-eq-ok, ok-injective,
  length, arith, All,
}
use mathlib.Core.Path.{subst}
use midas_util.Llist.{Ptr, null}
use midas_util.Llist.Chain.{Cells, end}
use midas_util.Llist.Supply.{Differ, IsSupply}
use midas_util.Audio.{
  ParserData, MixerConfig, config_start, config_end, XmlEvent, start, end, run_events, parse_config,
  initial,
}
use midas_util.Audio.Parse.{parse_config_safe}
use midas_util.Audio.Pointers.{
  Memory, ParserAt, config_end_at, run_events_at, initial_at, parse_config_at,
}
use midas_util.Audio.Pointers.Stored.{Represents}
use midas_util.Audio.Pointers.Update.{IsFree, Uses}
use midas_util.Audio.Pointers.Elements.{Same, config_start_at_lem, config_end_at_lem}

abbrev pub AllFree : Memory → List (Ptr × Ptr) → Type 0
AllFree m free = All (λ (a, p). IsFree m a p) free

AllFree-Uses :
    {new_node new_object : Ptr} {before after : Memory} (free : List (Ptr × Ptr))
    → Uses new_node new_object before after
    → All (λ (b, q). (b ≢ new_node) × (q ≢ new_object)) free
    → AllFree before free
    → AllFree after free
AllFree-Uses [] u d f = tt
AllFree-Uses ((a, p) ∷ free) u ((na, np), d) (i, f) = (
  record {
    valid = i.valid;
    node = u.nodes a na i.node;
    setting = u.settings p np i.setting;
    widget = u.widgets p np i.widget;
  },
  AllFree-Uses free u d f,
)

run_events_at_lem :
    (k n : ℕ) (free : List (Ptr × Ptr)) (d : ParserAt) (e : ParserData) (es : List XmlEvent)
    {e' : ParserData}
    → Same n d e
    → AllFree d.mem free
    → Differ free
    → length es ≤ length free
    → n + length es ≤ k
    → run_events e es ≡ ok e'
    → (d' : ParserAt) × (n' : ℕ) × (run_events_at k free d es ≡ ok d')
      × Same n' d' e'
      × (n' ≤ n + length es)
unfolding run_events run_events_at
run_events_at_lem k n free d e [] s f ds l b q =
    (d, n, refl, rw (sym (ok-injective q)) s, omega arith)
run_events_at_lem k n [] d e (start elem attr ∷ es) s f ds l b q = absurd (omega arith)
run_events_at_lem k n [] d e (end elem ∷ es) s f ds l b q = absurd (omega arith)
run_events_at_lem k n ((new_node, new_object) ∷ free) d e (start elem attr ∷ es) s (i, f)
      (apart, ds) l b q =
    let (e1, first, rest) = >>=-eq-ok (config_start e elem attr) _ q in
    let (d1, first', s1, uses) =
      config_start_at_lem k new_node new_object n (omega arith) d e s elem attr i first in
    let (d', n', q', s', le) =
      run_events_at_lem k (suc n) free d1 e1 es s1 (AllFree-Uses free uses apart f) ds (omega arith)
        (omega arith) rest in
    (d', n', rw first' q', s', omega arith)
run_events_at_lem k n (a ∷ free) d e (end elem ∷ es) s f ds l b q =
    let (s1, same) = config_end_at_lem n d e elem s in
    let (d', n', q', s', le) =
      run_events_at_lem k n (a ∷ free) (config_end_at d elem) (config_end e elem) es s1
        (subst (λ (m : Memory). AllFree m (a ∷ free)) (sym same) f) ds (omega arith) (omega arith)
        q in
    (d', n', q', s', omega arith)

AllFree-initial :
    (free : List (Ptr × Ptr)) → All (λ (a, p). a ≢ null) free → AllFree initial_at.mem free
AllFree-initial [] v = tt
AllFree-initial ((a, p) ∷ free) (n, v) =
    (record { valid = n; node = refl; setting = refl; widget = refl }, AllFree-initial free v)

initial-Same : Same 0 initial_at initial
initial-Same = record {
  owner = λ a. 0;
  bound = 0;
  cells = [];
  mem = record {
    chain = record { chain = end; owned = λ a i. absurd (cc); within = omega arith };
    settings = tt;
    defaults = record {
      cells = [];
      nodes = record { chain = end; owned = λ a i. absurd (cc); within = omega arith };
      point = tt;
    };
  };
  below = omega arith;
  device = refl;
  state = refl;
  list = tt;
}

-- With enough addresses and fuel, `parse_config` returns memory that holds the configuration of the
-- lists of values.
pub parse_config_at_lem :
    (k : ℕ) (free : List (Ptr × Ptr)) (es : List XmlEvent)
    → IsSupply free
    → length es ≤ length free
    → length es < k
    → (m : Memory) × (cfg : MixerConfig) × (owner : Ptr → ℕ) × (bound : ℕ) × (cells : Cells Ptr)
      × (parse_config_at k free (some es) ≡ ok (some m))
      × (parse_config (some es) ≡ ok (some cfg))
      × Represents m owner bound cells cfg
      × (bound < k)
unfolding parse_config parse_config_at
parse_config_at_lem k free es v l b =
    let (cfg, q) = parse_config_safe (some es) in
    let (e, q1, q2) = >>=-eq-ok (run_events initial es) _ q in
    let (d, n, q3, s, le) =
      run_events_at_lem k 0 free initial_at initial es initial-Same (AllFree-initial free v.valid)
        v.differ l (omega arith) q1 in
    let w = s.below in (d.mem, e.cfg, s.owner, s.bound, s.cells, rw q3, rw q1, s.mem, omega arith)
