-- ===== src/Sdn/Token/Account.antt =====
-- The tokens that are about: with a master, or under way to or from one.
use mmemphis.Base.{
  ℕ, zero, suc, ◌+◌, ◌≡◌, inl, inr, Bool, true, false, some, List, [], ◌∷◌, ◌++◌, arith, ◌==◌,
  Bool-cases, Option-cases, length, get_elem?, modify, length-modify, count, NoneOf, bit, minus_one,
  done,
}
use mmemphis.Sdn.Token.{Controller, Sent, System, token_request, is_master, update, remove_at}

abbrev pub is_token : Sent → Bool
is_token m = elim m.message [ token_request _ ↦ false | _ ↦ true ]

-- A request in the name of -1, which is no address.
abbrev pub is_stray : Sent → Bool
is_stray m = elim m.message [ token_request a ↦ a == minus_one | _ ↦ false ]

abbrev pub tokens : System → ℕ
tokens s = count is_master s.controllers + count is_token s.flight

module _ {A : Type 0} (p : A → Bool) where
  pub count-append : (xs ys : List A) → count p (xs ++ ys) ≡ count p xs + count p ys
  unfolding count
  count-append [] ys = omega arith
  count-append (x ∷ xs) ys = ground (arith, count-append xs ys)

  pub NoneOf-append : (xs ys : List A) → NoneOf p xs → NoneOf p ys → NoneOf p (xs ++ ys)
  NoneOf-append [] ys h k = k
  NoneOf-append (x ∷ xs) ys h k = (h.0, NoneOf-append xs ys h.1 k)

  pub NoneOf-remove_at : (xs : List A) (k : ℕ) → NoneOf p xs → NoneOf p (remove_at xs k)
  NoneOf-remove_at [] k h = tt
  NoneOf-remove_at (x ∷ xs) zero h = h.1
  NoneOf-remove_at (x ∷ xs) (suc k) h = (h.0, NoneOf-remove_at xs k h.1)

  pub count-remove_at :
      (xs : List A) (k : ℕ) {a : A}
      → get_elem? xs k ≡ some a
      → count p (remove_at xs k) + bit (p a) ≡ count p xs
  unfolding count
  count-remove_at [] k h = cc
  count-remove_at (x ∷ xs) zero h = ground arith
  count-remove_at (x ∷ xs) (suc k) h = ground (arith, count-remove_at xs k h)

  pub count-modify :
      (xs : List A) (k : ℕ) (f : A → A) {a : A}
      → get_elem? xs k ≡ some a
      → count p (modify xs k f) + bit (p a) ≡ count p xs + bit (p (f a))
  unfolding count
  count-modify [] k f h = cc
  count-modify (x ∷ xs) zero f h = ground arith
  count-modify (x ∷ xs) (suc k) f h = ground (arith, count-modify xs k f h)

-- What a handler leaves alone: the queue, the number of controllers and well-formed requests.
pub record Kept (s s' : System) : Type 0 where
  pub size : length s'.controllers ≡ length s.controllers
  pub requests : NoneOf is_stray s.flight → NoneOf is_stray s'.flight

-- A controller's own update, by its test and what it sets.
pub update_lem :
    (a : ℕ) (p : Controller → Bool) (f : Controller → Controller) (s : System) {s' : System}
    → update a p f s ≡ done s'
    → (c : Controller) × (get_elem? s.controllers a ≡ some c)
      × (p c ≡ true)
      × (s' ≡ record s { controllers = modify s.controllers a f })
      × (count is_master s'.controllers + bit (is_master c)
          ≡ count is_master s.controllers + bit (is_master (f c)))
      × Kept s s'
unfolding update
update_lem a p f s {s'} e = elim (Option-cases (get_elem? s.controllers a)) [
  | inl n ↦ ground arith
  | inr (c, g) ↦ elim (Bool-cases (p c)) [
    | inl y ↦
        let at : s' ≡ record s { controllers = modify s.controllers a f } = ground arith in
        (
          c,
          g,
          y,
          at,
          ground (arith, count-modify is_master s.controllers a f g),
          record {
            size = ground (arith, length-modify s.controllers a f);
            requests = λ h. ground arith;
          },
        )
    | inr n ↦ ground arith
  ]
]
