-- ===== src/Editing/Objects/Detached.antt =====
-- The snapshots of the undo stack are detached from the state that the editor changes
-- (packages/tui/src/undo-stack.ts).
use co_mono.Base.{
  ℕ, ◌≤◌, ◌<◌, ◌≡◌, ◌≢◌, ◌∙◌, refl, sym, ap, ◌⊎◌, inl, inr, List, [], ◌∷◌, ◌==◌, map, arith,
  if-true, if-false,
}
use co_mono.Editing.Objects.{StateObject, Heap, update, value}

abbrev pub All {ℓ} : {A : Type ℓ} → (A → Type 0) → List A → Type 0
All P [] = Unit
All P (x ∷ xs) = P x × All P xs

pub All-map {ℓ} :
    {A : Type ℓ} {P Q : A → Type 0} (xs : List A) → ((x : A) → P x → Q x) → All P xs → All Q xs
All-map [] f ps = tt
All-map (x ∷ xs) f (p, ps) = (f x p, All-map xs f ps)

-- A snapshot that is not the state's object and does not share its array.
pub record IsDetached (h : Heap) (live p : ℕ) : Type 0 where
  pub known : p < h.next_object
  pub other : p ≢ live
  pub known_array : (h.objects p).lines < h.next_array
  pub other_array : (h.objects p).lines ≢ (h.objects live).lines

-- No two snapshots share an array.
abbrev pub Apart : Heap → List ℕ → Type 0
Apart h [] = Unit
Apart h (p ∷ ps) = All (λ q. (h.objects q).lines ≢ (h.objects p).lines) ps × Apart h ps

pub record IsSeparate (h : Heap) (live : ℕ) (stack : List ℕ) : Type 0 where
  pub live_known : live < h.next_object
  pub array_known : (h.objects live).lines < h.next_array
  pub detached : All (IsDetached h live) stack
  pub apart : Apart h stack

pub update-same {ℓ} : {A : Type ℓ} (f : ℕ → A) (p : ℕ) (v : A) → update f p v p ≡ v
update-same f p v = if-true (p == p) v (f p) (ground arith)

pub update-other {ℓ} :
    {A : Type ℓ} (f : ℕ → A) (p : ℕ) (v : A) (q : ℕ) → q ≢ p → update f p v q ≡ f q
update-other f p v q ne = if-false (q == p) v (f q) (ground (arith, ne))

-- What a change of the state leaves alone: every other object and every array but the state's own.
pub record IsLocal (h h' : Heap) (live : ℕ) : Type 0 where
  pub objects : (p : ℕ) → p < h.next_object → p ≢ live → h'.objects p ≡ h.objects p
  pub arrays : (a : ℕ) → a < h.next_array → a ≢ (h.objects live).lines → h'.arrays a ≡ h.arrays a
  pub more_objects : h.next_object ≤ h'.next_object
  pub more_arrays : h.next_array ≤ h'.next_array
  pub array_known : (h'.objects live).lines < h'.next_array
  pub array_own :
      ((h'.objects live).lines ≡ (h.objects live).lines) ⊎ (h.next_array ≤ (h'.objects live).lines)

module _ (h h' : Heap) (live : ℕ) (l : IsLocal h h' live) where
  pub IsDetached-IsLocal : (p : ℕ) → IsDetached h live p → IsDetached h' live p
  IsDetached-IsLocal p d =
      let same : (h'.objects p).lines ≡ (h.objects p).lines =
        ap (λ (o : StateObject). o.lines) (l.objects p d.known d.other) in
      record {
        known = omega (arith, d.known, l.more_objects);
        other = d.other;
        known_array = omega (arith, d.known_array, l.more_arrays, same);
        other_array = elim l.array_own [
          | inl own ↦ λ e. d.other_array (sym same ∙ e ∙ own)
          | inr fresh ↦ λ e. absurd (omega (arith, e, fresh, d.known_array, same))
        ];
      }

  value-IsLocal : (p : ℕ) → IsDetached h live p → value h' p ≡ value h p
  value-IsLocal p d =
      let same = l.objects p d.known d.other in
      rw (same, l.arrays (h.objects p).lines d.known_array d.other_array) refl

  pub values-IsLocal :
      (ps : List ℕ) → All (IsDetached h live) ps → map (value h') ps ≡ map (value h) ps
  values-IsLocal [] ds = refl
  values-IsLocal (p ∷ ps) (d, ds) = cc (value-IsLocal p d, values-IsLocal ps ds)

pub Apart-same :
    (h h' : Heap) (ps : List ℕ)
    → All (λ p. h'.objects p ≡ h.objects p) ps
    → Apart h ps
    → Apart h' ps
Apart-same h h' [] same a = tt
Apart-same h h' (p ∷ ps) (s, same) (first, a) = (differ ps same first, Apart-same h h' ps same a)
  where
    differ :
        (qs : List ℕ)
        → All (λ q. h'.objects q ≡ h.objects q) qs
        → All (λ q. (h.objects q).lines ≢ (h.objects p).lines) qs
        → All (λ q. (h'.objects q).lines ≢ (h'.objects p).lines) qs
    differ [] es ns = tt
    differ (q ∷ qs) (e, es) (n, ns) = (rw (e, s) n, differ qs es ns)

pub IsSeparate-IsLocal :
    (h h' : Heap) (live : ℕ) (stack : List ℕ)
    → IsLocal h h' live
    → IsSeparate h live stack
    → IsSeparate h' live stack
IsSeparate-IsLocal h h' live stack l s = record {
  live_known = omega (arith, s.live_known, l.more_objects);
  array_known = l.array_known;
  detached = All-map stack (IsDetached-IsLocal h h' live l) s.detached;
  apart =
      Apart-same h h' stack
        (All-map stack (λ p (d : IsDetached h live p). l.objects p d.known d.other) s.detached)
        s.apart;
}
