-- ===== src/LinkedList/Ring.antt =====
-- The entries of a list, in their order: the links lead from the head through them and back.
use mac_osx_network_sockets.Base.{ℕ, ◌≡◌, ◌≢◌, true, List, [], ◌∷◌, ◌++◌, arith, contains, Distinct}
use mac_osx_network_sockets.LinkedList.{Heap}

-- From entry `a` the links lead through `xs` to `b`, and back.
abbrev pub Links : Heap → ℕ → List ℕ → ℕ → Type 0
Links h a [] b = (h.flink a ≡ b) × (h.blink b ≡ a)
Links h a (x ∷ xs) b = (h.flink a ≡ x) × (h.blink x ≡ a) × Links h x xs b

-- The list with this head holds `xs`, each once.
pub record IsRing (h : Heap) (head : ℕ) (xs : List ℕ) : Type 0 where
  pub links : Links h head xs head
  pub distinct : Distinct (head ∷ xs)

pub Links-append :
    (h : Heap) (a : ℕ) (xs : List ℕ) (y : ℕ) (ys : List ℕ) (b : ℕ)
    → Links h a (xs ++ y ∷ ys) b
    → Links h a xs y × Links h y ys b
Links-append h a [] y ys b l = ((l.0, l.1), l.2)
Links-append h a (x ∷ xs) y ys b l =
    let (m, n) = Links-append h x xs y ys b l.2 in ((l.0, l.1, m), n)

pub append-Links :
    (h : Heap) (a : ℕ) (xs : List ℕ) (y : ℕ) (ys : List ℕ) (b : ℕ)
    → Links h a xs y
    → Links h y ys b
    → Links h a (xs ++ y ∷ ys) b
append-Links h a [] y ys b l m = (l.0, l.1, m)
append-Links h a (x ∷ xs) y ys b l m = (l.0, l.1, append-Links h x xs y ys b l.2 m)

-- Links that are not written stay.
pub Links-same :
    (h g : Heap) (a : ℕ) (xs : List ℕ) (b : ℕ)
    → Links h a xs b
    → ((e : ℕ) → contains (a ∷ xs) e ≡ true → g.flink e ≡ h.flink e)
    → ((e : ℕ) → contains (b ∷ xs) e ≡ true → g.blink e ≡ h.blink e)
    → Links g a xs b
Links-same h g a [] b l f k = ground (arith, f a, k b)
Links-same h g a (x ∷ xs) b l f k = (
  ground (arith, f a),
  ground (arith, k x),
  Links-same h g x xs b l.2 (λ e c. f e (ground arith)) (λ e c. k e (ground arith)),
)

-- The last entry on the way to `b`, which is `a` if there is none between them
pub last-contains :
    (h : Heap) (a : ℕ) (xs : List ℕ) (b : ℕ) → Links h a xs b → contains (a ∷ xs) (h.blink b) ≡ true
last-contains h a [] b l = ground arith
last-contains h a (x ∷ xs) b l = ground (arith, last-contains h x xs b l.2)

-- The links from the last entry now lead to `c`.
pub Links-retarget :
    (h g : Heap) (a : ℕ) (xs : List ℕ) (b c : ℕ)
    → Links h a xs b
    → Distinct (a ∷ xs)
    → g.flink (h.blink b) ≡ c
    → g.blink c ≡ h.blink b
    → ((e : ℕ) → contains (a ∷ xs) e ≡ true → e ≢ h.blink b → g.flink e ≡ h.flink e)
    → ((e : ℕ) → contains xs e ≡ true → g.blink e ≡ h.blink e)
    → Links g a xs c
Links-retarget h g a [] b c l d to from f k = ground arith
Links-retarget h g a (x ∷ xs) b c l d to from f k = (
  ground (arith, f a, last-contains h x xs b l.2),
  ground (arith, k x),
  Links-retarget h g x xs b c l.2 d.1 to from (λ e m n. f e (ground arith) n)
      (λ e m. k e (ground arith)),
)
