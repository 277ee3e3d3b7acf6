-- ===== src/Prelude/Documents.antt =====
-- What a transaction does with the documents of a collection: a query that must find one, the save of
-- the document that a query found, the creation of a document under unique indexes, and an update of
-- every document that passes a filter.
use Prim.Native.Nat.{ℕ, ◌+◌, ◌≤◌}
use mathlib.Core.Path.{◌≡◌, refl}
use mathlib.Core.Logic.{inl, inr}
use mathlib.Core.Bool.{Bool, true, false}
use mathlib.Core.Option.{Option, none, some}
use mathlib.Core.List.{List, [], ◌∷◌, ◌++◌}
use native.Mathlib.Omega.{arith}
use fiberpassbackend.Prelude.Tests.{if◌then◌else◌, Bool-cases}
use fiberpassbackend.Prelude.Lists.{any}
use fiberpassbackend.Prelude.Results.{Outcome, ok, err}
use fiberpassbackend.Prelude.Store.{find_where, total}

-- `if (!document) throw error`.
abbrev pub given : {E A : Type 0} → Option A → E → Outcome E A
given none e = err e
given (some a) e = ok a

pub given-eq-ok : {E A : Type 0} (o : Option A) (e : E) {a : A} → given o e ≡ ok a → o ≡ some a
given-eq-ok none e h = cc
given-eq-ok (some a) e h = cc

-- `document.save()`: the document that a query for the filter finds is replaced.
abbrev pub save : {A : Type 0} → (A → Bool) → A → List A → List A
save p a [] = []
save p a (b ∷ l) = if p b then a ∷ l else b ∷ save p a l

pub total-save :
    {A : Type 0} (w : A → ℕ) (p : A → Bool) (a : A) (l : List A) {b : A}
    → find_where p l ≡ some b
    → total w (save p a l) + w b ≡ total w l + w a
total-save w p a [] h = cc
total-save w p a (c ∷ l) {b} h = elim (Bool-cases (p c)) [
  | inl passes ↦ let same : c ≡ b = ground arith in ground arith
  | inr fails ↦ ground (arith, total-save w p a l {b = b} (ground arith))
]

-- A save that leaves a weight alone leaves its sum alone.
pub total-save_same :
    {A : Type 0} (w : A → ℕ) (p : A → Bool) (a : A) (l : List A) {b : A}
    → find_where p l ≡ some b
    → w a ≡ w b
    → total w (save p a l) ≡ total w l
total-save_same w p a l h same = omega (arith, total-save w p a l h)

-- `create`: a document that a unique index rejects is not added.
abbrev pub create : {E A : Type 0} → (clash : A → Bool) → E → A → List A → Outcome E (List A)
create clash e a l = if any clash l then err e else ok (l ++ (a ∷ []))

pub create-eq-ok :
    {E A : Type 0} (clash : A → Bool) (e : E) (a : A) (l : List A) {l' : List A}
    → create clash e a l ≡ ok l'
    → (any clash l ≡ false) × (l' ≡ l ++ (a ∷ []))
create-eq-ok clash e a l {l'} h = elim (Bool-cases (any clash l)) [
  | inl found ↦ ground arith
  | inr free ↦ (free, ground arith)
]

pub total-append :
    {A : Type 0} (w : A → ℕ) (l : List A) (a : A) → total w (l ++ (a ∷ [])) ≡ total w l + w a
total-append w [] a = omega arith
total-append w (b ∷ l) a = omega (arith, total-append w l a)

-- `updateMany`.
abbrev pub update_many : {A : Type 0} → (A → Bool) → (A → A) → List A → List A
update_many p f [] = []
update_many p f (a ∷ l) = (if p a then f a else a) ∷ update_many p f l

-- The documents that pass a filter.
abbrev pub filter : {A : Type 0} → (A → Bool) → List A → List A
filter p [] = []
filter p (a ∷ l) = if p a then a ∷ filter p l else filter p l

abbrev pub only : {A : Type 0} → (A → Bool) → (A → ℕ) → A → ℕ
only p w a = if p a then w a else 0

pub total-filter :
    {A : Type 0} (w : A → ℕ) (p : A → Bool) (l : List A) → total w (filter p l) ≡ total (only p w) l
total-filter w p [] = refl
total-filter w p (a ∷ l) = ground (arith, total-filter w p l)

-- Where the update of a document that passes the filter moves its weight `before` to `after`, the sums
-- change by what the documents that pass weigh.
pub total-update_many :
    {A : Type 0} (w : A → ℕ) (p : A → Bool) (f : A → A) (l : List A)
    → total w (update_many p f l) + total (only p w) l ≡ total w l + total (only p (λ a. w (f a))) l
total-update_many w p f [] = refl
total-update_many w p f (a ∷ l) = ground (arith, total-update_many w p f l)

pub find-weight :
    {A : Type 0} (w : A → ℕ) (p : A → Bool) (l : List A) {a : A}
    → find_where p l ≡ some a
    → w a ≤ total w l
find-weight w p [] h = cc
find-weight w p (b ∷ l) {a} h = elim (Bool-cases (p b)) [
  | inl passes ↦ let same : b ≡ a = ground arith in ground arith
  | inr fails ↦ ground (arith, find-weight w p l {a = a} (ground arith))
]

pub ok-same : {E A : Type 0} {x y : A} → ◌≡◌ {A = Outcome E A} (ok x) (ok y) → x ≡ y
ok-same h = cc

pub find_where-append :
    {A : Type 0} (p : A → Bool) (l : List A) (a : A)
    → find_where p l ≡ none
    → p a ≡ true
    → find_where p (l ++ (a ∷ [])) ≡ some a
find_where-append p [] a h k = rw k
find_where-append p (b ∷ l) a h k = ground (arith, find_where-append p l a)

-- The saved document is the one that the query finds then, as long as it passes too.
pub find-save :
    {A : Type 0} (p : A → Bool) (a : A) (l : List A) {b : A}
    → find_where p l ≡ some b
    → p a ≡ true
    → find_where p (save p a l) ≡ some a
find-save p a [] f h = cc
find-save p a (c ∷ l) {b} f h = elim (Bool-cases (p c)) [
  | inl passes ↦ ground arith
  | inr fails ↦ ground (arith, find-save p a l {b = b} (ground arith) h)
]
