-- ===== src/Data/Origins.antt =====
-- The registry of data origins gives each name one number.
use mathlib.Core.List.{lookup}
use native.Mathlib.Nat.{zero-add, add-zero}
use equistore.Prelude.{
  All, subst, sym, suc, ◌+◌, ℕ, ◌≡◌, refl, ap, ◌∙◌, List, [], ◌∷◌, ◌++◌, length, get_elem?, some,
  none, arith, enumerate, Distinct, Distinct-snoc, Absent-of_none, Option-cases, inl, inr,
  get_elem?-append_left, get_elem?-append_right, position_from-get_elem?, get_elem?-position_from,
  get_elem?-lt,
}
use equistore.Errors.{Name, ok}
use equistore.Labels.{name_dec}
use equistore.Data.{register_data_origin, get_data_origin}

get_of_elem :
    (registered : List Name) (i : ℕ) {name : Name}
    → get_elem? registered i ≡ some name
    → get_data_origin registered i ≡ ok name
unfolding get_data_origin
get_of_elem registered i e = ground (arith, e, get_elem?-lt registered i e)

register-new :
    (registered : List Name) (name : Name)
    → lookup name_dec name (enumerate 0 registered) ≡ none
    → register_data_origin registered name ≡ (length registered, registered ++ name ∷ [])
unfolding register_data_origin
register-new registered name e = rw (e, register_data_origin) refl

register-old :
    (registered : List Name) (name : Name) (i : ℕ)
    → lookup name_dec name (enumerate 0 registered) ≡ some i
    → register_data_origin registered name ≡ (i, registered)
unfolding register_data_origin
register-old registered name i e = rw (e, register_data_origin) refl

-- What holds of each element with its number.
All-enumerate :
    (P : Name × ℕ → Type 0) (s : ℕ) (xs : List Name)
    → ((i : ℕ) (x : Name) → get_elem? xs i ≡ some x → P (x, s + i))
    → All P (enumerate s xs)
All-enumerate P s [] f = tt
All-enumerate P s (x ∷ xs) f = (
  subst (λ i. P (x, i)) (add-zero s) (f 0 x refl),
  All-enumerate P (suc s) xs (λ i y e. subst (λ k. P (y, k)) (omega arith) (f (suc i) y e)),
)

kept_of_elem :
    (registered registered' : List Name)
    → ((i : ℕ) (other : Name)
        → get_elem? registered i ≡ some other
        → get_data_origin registered' i ≡ ok other)
    → All (λ e. get_data_origin registered' e.1 ≡ ok e.0) (enumerate 0 registered)
kept_of_elem registered registered' f =
    All-enumerate _ 0 registered
      (λ i x e. subst (λ k. get_data_origin registered' k ≡ ok x) (sym (zero-add i)) (f i x e))

-- `r` is what a good registration of the name gives: the names stay distinct,
-- the origin has the name, the origins from before keep theirs, and to register the name once more
-- gives the same origin and changes nothing.
pub record IsRegistered (registered : List Name) (name : Name) (r : ℕ × List Name) : Type 0 where
  pub distinct : Distinct r.1
  pub named : get_data_origin r.1 r.0 ≡ ok name
  pub kept : All (λ e. get_data_origin r.1 e.1 ≡ ok e.0) (enumerate 0 registered)
  pub again : register_data_origin r.1 name ≡ r

-- To register a name in a registry of distinct names keeps them distinct, gives an origin whose name
-- it is, keeps the name of every origin that was registered before, and gives the same origin and
-- changes nothing when it is repeated.
pub register_data_origin-IsRegistered :
    (registered : List Name) (name : Name)
    → Distinct registered
    → IsRegistered registered name (register_data_origin registered name)
register_data_origin-IsRegistered registered name d =
    elim (Option-cases (lookup name_dec name (enumerate 0 registered))) [
      | inl new ↦
          let there : get_elem? (registered ++ name ∷ []) (length registered) ≡ some name =
            rw (← add-zero (length registered)) (get_elem?-append_right registered (name ∷ []) 0) in
          let d' =
            Distinct-snoc registered name d (Absent-of_none name_dec 0 name registered new) in
          rw (register-new registered name new) (record {
            distinct = d';
            named = get_of_elem _ _ there;
            kept =
                kept_of_elem registered _
                  (λ i other e. get_of_elem _ i (get_elem?-append_left registered (name ∷ []) i e));
            again = register-old _ name (length registered) (
                get_elem?-position_from name_dec 0 name _ _ d' there
                ∙ ap some (zero-add (length registered)));
          })
      | inr (i, old) ↦
          let (k, q, there) = position_from-get_elem? name_dec 0 name registered old in
          rw (register-old registered name i old) (record {
            distinct = d;
            named = get_of_elem registered i (rw (q ∙ zero-add k) there);
            kept = kept_of_elem registered _ (λ j other e. get_of_elem registered j e);
            again = register-old registered name i old;
          })
    ]
