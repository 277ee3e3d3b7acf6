-- ===== src/Prelude/Store.antt =====
-- A collection of documents with a unique key: lookup by the key, and an upsert that replaces the
-- document with that key or adds it at the end.
use Prim.Native.Nat.{ℕ, ◌+◌}
use mathlib.Core.Path.{◌≡◌, refl, sym, subst}
use mathlib.Core.Logic.{inl, inr}
use mathlib.Core.Bool.{Bool, true}
use mathlib.Core.Option.{Option, none, some}
use mathlib.Core.List.{List, [], ◌∷◌}
use native.Mathlib.Omega.{arith}
use fiberpassbackend.Prelude.Tests.{◌==◌, if◌then◌else◌, Bool-cases}

module _ {A : Type 0} (key : A → ℕ) where
  abbrev pub find : ℕ → List A → Option A
  find k [] = none
  find k (a ∷ l) = if key a == k then some a else find k l

  abbrev pub put : A → List A → List A
  put a [] = a ∷ []
  put a (b ∷ l) = if key b == key a then a ∷ l else b ∷ put a l

  pub find-put :
      (k : ℕ) (a : A) (l : List A) → find k (put a l) ≡ (if key a == k then some a else find k l)
  find-put k a [] = refl
  find-put k a (b ∷ l) = ground (arith, find-put k a l)

  pub key-find : (k : ℕ) (l : List A) {a : A} → find k l ≡ some a → key a ≡ k
  key-find k [] h = cc
  key-find k (b ∷ l) {a} h = ground (arith, key-find k l {a = a})

-- The first document that passes a test.
abbrev pub find_where : {A : Type 0} → (A → Bool) → List A → Option A
find_where p [] = none
find_where p (a ∷ l) = if p a then some a else find_where p l

-- A weight summed over a collection.
abbrev pub total : {A : Type 0} → (A → ℕ) → List A → ℕ
total w [] = 0
total w (a ∷ l) = w a + total w l

abbrev pub weight : {A : Type 0} → (A → ℕ) → Option A → ℕ
weight w none = 0
weight w (some a) = w a

-- An upsert changes a sum by the weights of the new and of the replaced document.
pub total-put :
    {A : Type 0} (key w : A → ℕ) (a : A) (l : List A)
    → total w (put key a l) + weight w (find key (key a) l) ≡ total w l + w a
total-put key w a [] = omega arith
total-put key w a (b ∷ l) = ground (arith, total-put key w a l)

-- `updateOne` and `findOneAndUpdate`: the first document that passes the filter is replaced and
-- returned; where none does, nothing changes and the result is empty.
abbrev pub keep_first : {A : Type 0} → A → Option (A × List A) → Option (A × List A)
keep_first a none = none
keep_first a (some (b, l)) = some (b, a ∷ l)

abbrev pub update_where : {A : Type 0} → (A → Bool) → (A → A) → List A → Option (A × List A)
update_where p f [] = none
update_where p f (a ∷ l) =
    let rest = update_where p f l in if p a then some (f a, f a ∷ l) else keep_first a rest

-- An update of one document: it passed the filter, and every sum changes by its weights.
pub record Updated {A : Type 0} (p : A → Bool) (f : A → A) (l : List A) (b : A) (l' : List A)
    : Type 0 where
  pub before : A
  pub passes : p before ≡ true
  pub first : find_where p l ≡ some before
  pub is_after : b ≡ f before
  pub sums : (w : A → ℕ) → total w l' + w before ≡ total w l + w (f before)

pub keep_first-eq-some :
    {A : Type 0} (a : A) (o : Option (A × List A)) {b : A} {l' : List A}
    → keep_first a o ≡ some (b, l')
    → (l : List A) × (o ≡ some (b, l)) × (l' ≡ a ∷ l)
keep_first-eq-some a none h = cc
keep_first-eq-some a (some (c, m)) {b} {l'} h = (m, cc, cc)

pub update_where-eq-some :
    {A : Type 0} (p : A → Bool) (f : A → A) (l : List A) {b : A} {l' : List A}
    → update_where p f l ≡ some (b, l')
    → Updated p f l b l'
update_where-eq-some p f [] h = cc
update_where-eq-some p f (a ∷ l) {b} {l'} h = elim (Bool-cases (p a)) [
  | inl yes_first ↦
      let same : b ≡ f a = ground arith in
      let rest : l' ≡ f a ∷ l = ground arith in
      record {
        before = a;
        passes = yes_first;
        first = rw yes_first;
        is_after = same;
        sums =
            λ w. subst (λ m. total w m + w a ≡ total w (a ∷ l) + w (f a)) (sym rest) (omega arith);
      }
  | inr not_first ↦
      let k = keep_first-eq-some a (update_where p f l) {b = b} {l' = l'} (ground arith) in
      let u = update_where-eq-some p f l {b = b} {l' = k.0} k.1 in
      record {
        before = u.before;
        passes = u.passes;
        first = ground (arith, u.first);
        is_after = u.is_after;
        sums = λ w.
            subst (λ m. total w m + w u.before ≡ total w (a ∷ l) + w (f u.before)) (sym k.2)
              (omega (arith, u.sums w));
      }
]
