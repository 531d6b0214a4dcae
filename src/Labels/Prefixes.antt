-- ===== src/Labels/Prefixes.antt =====
-- Rows behind other rows: the products that the library makes of two sets of labels.
use equistore.Prelude.{
  ◌≡◌, ◌≢◌, refl, ap₂, List, [], ◌∷◌, ◌++◌, length, map, All, Absent, Absent-append, Distinct,
  arith,
}
use equistore.Labels.{Entry}

-- Rows behind keys of one width are equal only where keys and rows are.
append-injective : (a b x y : Entry) → length a ≡ length b → a ++ x ≡ b ++ y → (a ≡ b) × (x ≡ y)
append-injective [] [] x y w e = (refl, e)
append-injective [] (c ∷ b) x y w e = absurd (omega arith)
append-injective (c ∷ a) [] x y w e = absurd (omega arith)
append-injective (c ∷ a) (d ∷ b) x y w e =
    let (p, q) = append-injective a b x y (omega arith) (cc) in (ap₂ ◌∷◌ (cc) p, q)

behind_self :
    (key e : Entry) (rows : List Entry)
    → Absent e rows
    → Absent (key ++ e) (map (λ r. key ++ r) rows)
behind_self key e [] a = tt
behind_self key e (r ∷ rows) a =
    (λ p. a.0 (append-injective key key e r refl p).1, behind_self key e rows a.1)

pub behind_other :
    (key other e : Entry) (rows : List Entry)
    → length key ≡ length other
    → key ≢ other
    → Absent (key ++ e) (map (λ r. other ++ r) rows)
behind_other key other e [] w n = tt
behind_other key other e (r ∷ rows) w n =
    (λ p. n (append-injective key other e r w p).0, behind_other key other e rows w n)

pub Distinct-behind :
    (key : Entry) (rows rest : List Entry)
    → Distinct rows
    → All (λ r. Absent (key ++ r) rest) rows
    → Distinct rest
    → Distinct (map (λ r. key ++ r) rows ++ rest)
Distinct-behind key [] rest d a d' = d'
Distinct-behind key (r ∷ rows) rest d a d' = (
  Absent-append (key ++ r) (map (λ r. key ++ r) rows) rest (behind_self key r rows d.0) a.0,
  Distinct-behind key rows rest d.1 a.1 d',
)

pub All-Absent :
    (key : Entry) (rows rest : List Entry)
    → ((e : Entry) → Absent (key ++ e) rest)
    → All (λ r. Absent (key ++ r) rest) rows
All-Absent key [] rest f = tt
All-Absent key (r ∷ rows) rest f = (f r, All-Absent key rows rest f)
