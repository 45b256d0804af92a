-- ===== src/Tcb/Search.antt =====
-- Free blocks and the blocks of tasks.
use mmemphis.Base.{
  ℕ, ◌+◌, ◌≡◌, refl, ◌≢◌, none, List, [], ◌∷◌, arith, length, index?, count, minus_one,
}
use mmemphis.Tcb.{Tcb, is_free, init_tcb, init_tcbs_from, search_tcb}

-- Every block is free at boot, and belongs to no task.
pub init_tcbs_from-free :
    (page i : ℕ) (tcbs : List Tcb) (t : ℕ)
    → t ≢ minus_one
    → (count is_free (init_tcbs_from page i tcbs) ≡ length tcbs)
      × (search_tcb t (init_tcbs_from page i tcbs) ≡ none)
unfolding init_tcbs_from init_tcb count search_tcb index?
init_tcbs_from-free page i [] t m = (refl, refl)
init_tcbs_from-free page i (x ∷ tcbs) t m =
    let (a, b) = init_tcbs_from-free page (i + 1) tcbs t m in (omega (arith, a), ground (arith, b))
