-- ===== src/Links/Tests.antt =====
-- A list of three nodes.
use clean_os.Base.{◌≡◌, refl, List, [], ◌∷◌, arith}
use clean_os.Base.Count.{unlink}
use clean_os.Links.{Heap, init_list}
use clean_os.Links.Refine.{IsList}
use clean_os.Links.Ends.{init_list-IsList}
use clean_os.Links.Run.{
  Op, push_left, push_right, pop_right, put_in, take_at, take_out, calls, AllFit, calls-meanings,
}

abbrev empty : Heap
empty = init_list (record { pre = λ a. 0; next = λ a. 0; size = λ a. 0 }) 100

abbrev ops : List Op
ops = push_right 200 ∷ push_left 300 ∷ put_in 1 400 ∷ take_at 0 ∷ take_out 200 ∷ pop_right ∷ []

ops-AllFit : AllFit ops 100 []
unfolding unlink
ops-AllFit = (
  (refl, omega arith),
  ((refl, omega arith), ((refl, omega arith), (tt, (omega arith, (tt, tt))))),
)

calls-meanings_example :
    ((calls ops empty 100).0 ≡ 0 ∷ 0 ∷ 1 ∷ 300 ∷ 0 ∷ 400 ∷ [])
    × IsList (calls ops empty 100).1 100 []
unfolding unlink
calls-meanings_example =
    calls-meanings ops empty 100 [] (init_list-IsList _ 100 (omega arith)) ops-AllFit
