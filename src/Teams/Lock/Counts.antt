-- ===== src/Teams/Lock/Counts.antt =====
-- Counting the calls at a stage.
use co_mono.Base.{
  ℕ, zero, suc, ◌+◌, ◌<◌, ◌≡◌, ◌∙◌, sym, ap, ◌⊎◌, inl, inr, Bool, true, false, some, some_inj, List,
  [], ◌∷◌, ◌++◌, get_elem?, set, arith,
}

abbrev pub bit : Bool → ℕ
bit true = 1
bit false = 0

module _ {ℓ} {A : Type ℓ} where
  abbrev pub count : (A → Bool) → List A → ℕ
  count q [] = 0
  count q (x ∷ xs) = bit (q x) + count q xs

  pub count-append :
      (q : A → Bool) (xs : List A) (x : A) → count q (xs ++ x ∷ []) ≡ count q xs + bit (q x)
  count-append q [] x = omega arith
  count-append q (y ∷ xs) x = omega (arith, count-append q xs x)

  pub count-set :
      (q : A → Bool) (xs : List A) (i : ℕ) (x y : A)
      → get_elem? xs i ≡ some x
      → count q (set xs i y) + bit (q x) ≡ count q xs + bit (q y)
  count-set q [] i x y h = absurd (cc (h))
  count-set q (z ∷ xs) zero x y h = omega (arith, ap (λ w. bit (q w)) (some_inj h))
  count-set q (z ∷ xs) (suc i) x y h = omega (arith, count-set q xs i x y h)

  pub count-get :
      (q : A → Bool) (xs : List A) (i : ℕ) (x : A)
      → get_elem? xs i ≡ some x
      → q x ≡ true
      → 0 < count q xs
  count-get q [] i x h holds = absurd (cc (h))
  count-get q (z ∷ xs) zero x h holds = omega (arith, ap bit (ap q (some_inj h) ∙ holds))
  count-get q (z ∷ xs) (suc i) x h holds = omega (arith, count-get q xs i x h holds)

  -- What stands in the list after a change at `i` is the new value, or was there beside it.
  pub get-set :
      (xs : List A) (i j : ℕ) (y z c : A)
      → get_elem? (set xs i y) j ≡ some c
      → (c ≡ y) ⊎ (get_elem? (set xs i z) j ≡ some c)
  get-set [] i j y z c h = absurd (cc (h))
  get-set (x ∷ xs) zero zero y z c h = inl (sym (some_inj h))
  get-set (x ∷ xs) zero (suc j) y z c h = inr h
  get-set (x ∷ xs) (suc i) zero y z c h = inr h
  get-set (x ∷ xs) (suc i) (suc j) y z c h = get-set xs i j y z c h

  pub set-get : (xs : List A) (i : ℕ) (x : A) → get_elem? xs i ≡ some x → set xs i x ≡ xs
  set-get [] i x h = absurd (cc (h))
  set-get (z ∷ xs) zero x h = ap (λ w. w ∷ xs) (sym (some_inj h))
  set-get (z ∷ xs) (suc i) x h = ap (z ∷◌) (set-get xs i x h)
