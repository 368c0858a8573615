-- ===== src/Tests/Subgoals.antt =====
-- The theorems on the store of subgoals, at a chain of three.
use vai_core.Prelude.{some, Option, List, [], ◌∷◌, String, ok, ◌≡◌, refl}
use vai_core.Prelude.Dict.{get}
use vai_core.Memory.Records.{SubgoalMemoryRecord}
use vai_core.Memory.Lifecycle.{running}
use vai_core.Memory.SubgoalMemory.{
  Store, Subgoal, put_subgoal, get_subgoal, get_chain, reverse, record_of,
}
use vai_core.Memory.SubgoalMemory.Chain.{
  IsKeyed, Linked, get_chain-Linked, get_subgoal-put_subgoal, put_subgoal-IsKeyed,
}

abbrev subgoal : String → Option String → Subgoal
subgoal id parent = record {
  subgoal_id = id;
  goal = "do";
  context = "{}";
  metadata = "{}";
  parent_id = parent;
  state = running;
  created_at = 5;
}

abbrev root : Store
root = []

root-IsKeyed : IsKeyed root
unfolding get
root-IsKeyed k r found = absurd (cc found)

-- The parents of the first two are each other.
abbrev family : Store
family =
    put_subgoal (subgoal "c" (some "b"))
      (put_subgoal (subgoal "b" (some "a")) (put_subgoal (subgoal "a" (some "b")) root))

family-IsKeyed : IsKeyed family
family-IsKeyed =
    put_subgoal-IsKeyed (subgoal "c" (some "b"))
      (put_subgoal (subgoal "b" (some "a")) (put_subgoal (subgoal "a" (some "b")) root))
      (put_subgoal-IsKeyed (subgoal "b" (some "a")) (put_subgoal (subgoal "a" (some "b")) root)
        (put_subgoal-IsKeyed (subgoal "a" (some "b")) root root-IsKeyed))

family_chain :
    get_chain family "c"
    ≡ some (
        record_of (subgoal "a" (some "b"))
        ∷ record_of (subgoal "b" (some "a"))
        ∷ record_of (subgoal "c" (some "b"))
        ∷ [])
unfolding get_chain put_subgoal
family_chain = refl

get_chain-Linked_example :
    (links : List SubgoalMemoryRecord) × (get_chain family "c" ≡ some (reverse links))
    × Linked family [] (some "c") links
get_chain-Linked_example = get_chain-Linked family family-IsKeyed "c"

get_subgoal-put_subgoal_example :
    get_subgoal (put_subgoal (subgoal "c" (some "b")) root) "c" ≡ ok (some (subgoal "c" (some "b")))
get_subgoal-put_subgoal_example = get_subgoal-put_subgoal (subgoal "c" (some "b")) root
