-- ===== src/Channels/Bridge/Account.antt =====
-- How many prompts run, by the bridge's count, its session objects and the calls that wait.
use co_mono.Base.{
  ℕ, zero, suc, ◌+◌, ◌≤◌, ◌<◌, ◌≡◌, refl, sym, ap, subst, Bool, true, false, some, List, [], ◌∷◌,
  ◌++◌, ◌==◌, if◌then◌else◌, if-both, get_or_else, length, get_elem?, set, some_inj, take, drop,
  String, str_eq, Dict, dict_get, dict_set, arith,
}
use co_mono.Channels.Bridge.{
  ℤ, pos, negsuc, increment, decrement, at_least, SenderSession, Flight, Bridge, no_session,
}

-- `m - n`
unfoldable pub difference : ℕ → ℕ → ℤ
difference m zero = pos m
difference zero (suc n) = negsuc n
difference (suc m) (suc n) = difference m n

pub increment-difference : (m n : ℕ) → increment (difference m n) ≡ difference (suc m) n
unfolding difference
increment-difference m zero = refl
increment-difference zero (suc zero) = refl
increment-difference zero (suc (suc n)) = refl
increment-difference (suc m) (suc n) = increment-difference m n

pub decrement-difference : (m n : ℕ) → decrement (difference (suc m) n) ≡ difference m n
unfolding difference
decrement-difference m zero = refl
decrement-difference zero (suc zero) = refl
decrement-difference zero (suc (suc n)) = refl
decrement-difference (suc m) (suc n) = decrement-difference m n

pub difference-same : (n : ℕ) → difference n n ≡ pos 0
unfolding difference
difference-same zero = refl
difference-same (suc n) = difference-same n

pub at_least-difference : (m n k : ℕ) → at_least (difference m n) k ≡ false → m < k + n
unfolding difference
at_least-difference m zero k h = ground (arith, h)
at_least-difference zero (suc n) k h = omega arith
at_least-difference (suc m) (suc n) k h = omega (arith, at_least-difference m n k h)

-- The calls that hold the object at `a`, and whether that object is processing.
abbrev flights_at : ℕ → List Flight → ℕ
flights_at a [] = 0
flights_at a (f ∷ fs) = if f.address == a then suc (flights_at a fs) else flights_at a fs

abbrev pub is_busy : List SenderSession → ℕ → Bool
is_busy store a = (get_or_else (get_elem? store a) no_session).processing

abbrev pub bit : Bool → ℕ
bit true = 1
bit false = 0

pub data KnownAll (n : ℕ) : Dict ℕ → Type 0 where
  no_key : KnownAll n []
  then_key : {key : String} {a : ℕ} {m : Dict ℕ} → a < n → KnownAll n m → KnownAll n ((key, a) ∷ m)

-- The count is the number of waiting calls less `d`, there are at most `d` more of them than the bound,
-- an object is processing when one call holds it, and no call does otherwise.
pub record IsAccounted (d : ℕ) (b : Bridge) : Type 0 where
  pub counted : b.active_count ≡ difference (length (b.flights)) d
  pub bounded : length (b.flights) ≤ b.max_concurrent + d
  pub alone : (a : ℕ) → flights_at a (b.flights) ≡ bit (is_busy (b.store) a)
  pub known : KnownAll (length (b.store)) (b.sessions)

pub is_busy-set :
    (xs : List SenderSession) (i j : ℕ) (s : SenderSession)
    → i < length xs
    → is_busy (set xs i s) j ≡ (if i == j then s.processing else is_busy xs j)
is_busy-set [] i j s h = absurd (omega arith)
is_busy-set (x ∷ xs) zero zero s h = refl
is_busy-set (x ∷ xs) zero (suc j) s h = ground arith
is_busy-set (x ∷ xs) (suc i) zero s h = ground arith
is_busy-set (x ∷ xs) (suc i) (suc j) s h = ground (arith, is_busy-set xs i j s (omega arith))

pub is_busy-set_same :
    (xs : List SenderSession) (i j : ℕ) (s : SenderSession)
    → s.processing ≡ is_busy xs i
    → is_busy (set xs i s) j ≡ is_busy xs j
is_busy-set_same [] i j s h = refl
is_busy-set_same (x ∷ xs) zero zero s h = h
is_busy-set_same (x ∷ xs) zero (suc j) s h = refl
is_busy-set_same (x ∷ xs) (suc i) zero s h = refl
is_busy-set_same (x ∷ xs) (suc i) (suc j) s h = is_busy-set_same xs i j s h

pub length-set {ℓ} : {A : Type ℓ} (xs : List A) (i : ℕ) (x : A) → length (set xs i x) ≡ length xs
length-set [] i x = refl
length-set (y ∷ ys) zero x = refl
length-set (y ∷ ys) (suc i) x = ap suc (length-set ys i x)

pub is_busy-append :
    (xs : List SenderSession) (s : SenderSession) (j : ℕ)
    → s.processing ≡ false
    → is_busy (xs ++ s ∷ []) j ≡ is_busy xs j
is_busy-append [] s zero h = h
is_busy-append [] s (suc j) h = refl
is_busy-append (x ∷ xs) s zero h = refl
is_busy-append (x ∷ xs) s (suc j) h = is_busy-append xs s j h

-- A busy object is in the store.
pub is_busy-lt : (xs : List SenderSession) (a : ℕ) → is_busy xs a ≡ true → a < length xs
is_busy-lt [] a h = absurd (cc (h))
is_busy-lt (x ∷ xs) zero h = omega arith
is_busy-lt (x ∷ xs) (suc a) h = omega (arith, is_busy-lt xs a h)

pub flights_at-append :
    (a : ℕ) (fs : List Flight) (f : Flight)
    → flights_at a (fs ++ f ∷ []) ≡ flights_at a fs + bit (f.address == a)
flights_at-append a [] f = ground arith
flights_at-append a (g ∷ fs) f = ground (arith, flights_at-append a fs f)

pub flights_at-without :
    (a i : ℕ) (fs : List Flight) (f : Flight)
    → get_elem? fs i ≡ some f
    → flights_at a fs ≡ flights_at a (take i fs ++ drop (suc i) fs) + bit (f.address == a)
flights_at-without a i [] f h = absurd (cc (h))
flights_at-without a zero (g ∷ fs) f h =
    subst (λ g. flights_at a (g ∷ fs) ≡ flights_at a fs + bit (f.address == a)) (sym (some_inj h))
      (ground arith)
flights_at-without a (suc i) (g ∷ fs) f h = ground (arith, flights_at-without a i fs f h)

pub length-without :
    {A : Type 0} (i : ℕ) (fs : List A) (f : A)
    → get_elem? fs i ≡ some f
    → length fs ≡ suc (length (take i fs ++ drop (suc i) fs))
length-without i [] f h = absurd (cc (h))
length-without zero (g ∷ fs) f h = refl
length-without (suc i) (g ∷ fs) f h = ap suc (length-without i fs f h)

pub KnownAll-get :
    (n : ℕ) (m : Dict ℕ) (key : String) (a : ℕ) → KnownAll n m → dict_get m key ≡ some a → a < n
unfolding dict_get
KnownAll-get n [] key a no_key h = absurd (cc (h))
KnownAll-get n ((k, c) ∷ m) key a (then_key first others) h =
    let later = λ (e : dict_get m key ≡ some a). KnownAll-get n m key a others e in
    known_if (str_eq k key) h later
  where
    known_if :
        (t : Bool)
        → (if t then some c else dict_get m key) ≡ some a
        → (dict_get m key ≡ some a → a < n)
        → a < n
    known_if true e later = omega (arith, first, some_inj e)
    known_if false e later = later e

pub KnownAll-le : (n k : ℕ) (m : Dict ℕ) → n ≤ k → KnownAll n m → KnownAll k m
KnownAll-le n k [] h no_key = no_key
KnownAll-le n k ((key, a) ∷ m) h (then_key first others) =
    then_key (omega (arith, first, h)) (KnownAll-le n k m h others)

pub KnownAll-set :
    (n : ℕ) (m : Dict ℕ) (key : String) (a : ℕ)
    → a < n
    → KnownAll n m
    → KnownAll n (dict_set m key a)
unfolding dict_set
KnownAll-set n [] key a h no_key = then_key h no_key
KnownAll-set n ((k, c) ∷ m) key a h (then_key first others) =
    if-both (KnownAll n) (str_eq k key) (λ _. then_key h others)
      (λ _. then_key first (KnownAll-set n m key a h others))
