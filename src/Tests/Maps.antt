-- ===== src/Tests/Maps.antt =====
-- A map between two processes that iterate their maps in different orders.
use mathlib.Core.List.{Perm}
use mathlib.Core.List.Perm
use mathlib.Core.Path.{subst}
use native.Mathlib.Decide.{ℕ_discrete}
use crossmist.Common.{
  ℕ, ◌≡◌, ◌≢◌, refl, sym, ap, ◌∙◌, arith, Bool, true, false, Option, none, some, List, [], ◌∷◌,
  length, All,
}
use crossmist.Serde.{ok, new, from, serialize, deserialize}
use crossmist.Serde.RoundTrip.{exhausted}
use crossmist.Builtins.Resource.{fd_object, fd-Law}
use crossmist.Builtins.Sequence.{usize_object, usize-Law, Entry, map_object}
use crossmist.Builtins.Unordered.{AllApart, Unordered, contents, carried, map_arrives}

abbrev Pairs : Type 0
Pairs = List (Entry ℕ ℕ)

abbrev Apart : Entry ℕ ℕ → Entry ℕ ℕ → Type 0
Apart (key, _) (key', _) = key ≢ key'

abbrev Distinct : Type 0
Distinct = (xs : Pairs) × AllApart Apart xs

apart_too :
    (x y : Entry ℕ ℕ) (ys : Pairs)
    → Dec (x.0 ≡ y.0)
    → Option (All (Apart x) ys)
    → Option (All (Apart x) (y ∷ ys))
apart_too x y ys (yes same) found = none
apart_too x y ys (no differ) none = none
apart_too x y ys (no differ) (some h) = some (differ, h)

-- Whether a key is not there yet.
absent : (x : Entry ℕ ℕ) (ys : Pairs) → Option (All (Apart x) ys)
absent x [] = some tt
absent x (y ∷ ys) = apart_too x y ys (ℕ_discrete x.0 y.0) (absent x ys)

apart_too-some :
    (x y : Entry ℕ ℕ) (ys : Pairs) (d : Dec (x.0 ≡ y.0)) (h : All (Apart x) ys)
    → Apart x y
    → (k : All (Apart x) (y ∷ ys)) × (apart_too x y ys d (some h) ≡ some k)
unfolding apart_too
apart_too-some x y ys (yes same) h differ = absurd (differ same)
apart_too-some x y ys (no differ) h _ = ((differ, h), refl)

absent-all :
    (x : Entry ℕ ℕ) (ys : Pairs)
    → All (Apart x) ys
    → (h : All (Apart x) ys) × (absent x ys ≡ some h)
unfolding absent
absent-all x [] h = (tt, refl)
absent-all x (y ∷ ys) (h, hs) =
    let (k, e) = absent-all x ys hs in rw e (apart_too-some x y ys (ℕ_discrete x.0 y.0) k h)

-- `insert` of an entry whose key may be there.
abbrev insert : (x : Entry ℕ ℕ) (c : Distinct) → Option (All (Apart x) c.0) → Distinct
insert x (xs, d) (some h) = (x ∷ xs, (h, d))
insert x (xs, d) none = (xs, d)

abbrev collects : Pairs → Distinct
collects [] = ([], tt)
collects (x ∷ xs) = let c = collects xs in insert x c (absent x c.0)

insert-fresh :
    (x : Entry ℕ ℕ) (c : Distinct) → All (Apart x) c.0 → (insert x c (absent x c.0)).0 ≡ x ∷ c.0
insert-fresh x c h = let (k, e) = absent-all x c.0 h in rw e refl

collects-same : (xs : Pairs) → AllApart Apart xs → (collects xs).0 ≡ xs
collects-same [] d = refl
collects-same (x ∷ xs) (h, d) =
    let same = collects-same xs d in
    insert-fresh x (collects xs) (subst (All (Apart x)) (sym same) h) ∙ ap (λ ys. x ∷ ys) same

-- One process iterates a map with its first two entries swapped.
abbrev swapped : Bool → Pairs → Pairs
swapped true (x ∷ y ∷ zs) = y ∷ x ∷ zs
swapped true xs = xs
swapped false xs = xs

swapped-Perm : (seed : Bool) (xs : Pairs) → Perm (swapped seed xs) xs
swapped-Perm true [] = Perm.refl []
swapped-Perm true (x ∷ []) = Perm.refl (x ∷ [])
swapped-Perm true (x ∷ y ∷ zs) = Perm.swap x y zs
swapped-Perm false xs = Perm.refl xs

swapped-AllApart : (seed : Bool) (xs : Pairs) → AllApart Apart xs → AllApart Apart (swapped seed xs)
swapped-AllApart true [] d = d
swapped-AllApart true (x ∷ []) d = d
swapped-AllApart true (x ∷ y ∷ zs) ((xy, xs), (ys, d)) = ((λ e. xy (sym e), ys), (xs, d))
swapped-AllApart false xs d = d

abbrev hash_map : Bool → Unordered Distinct (Entry ℕ ℕ) Apart
hash_map seed = record {
  coll = record {
    len = λ c. length (swapped seed c.0);
    into_iter = λ c. swapped seed c.0;
    collect = collects;
  };
  len_lem = λ c. refl;
  apart_lem = λ c. swapped-AllApart seed c.0 c.1;
  collect_lem = λ xs d.
      subst (Perm (swapped seed (collects xs).0)) (collects-same xs d)
        (swapped-Perm seed (collects xs).0);
}

abbrev two_entries : Distinct
two_entries = ((3, (7, tt)) ∷ (4, (8, tt)) ∷ [], ((λ e. absurd (omega arith), tt), (tt, tt)))

map_arrives_example :
    (m : Distinct) × (deserialize
        (map_object (hash_map true).coll usize_object fd_object)
        (from (serialize (map_object (hash_map false).coll usize_object fd_object) two_entries new))
      ≡ ok (
        m,
        exhausted
            (serialize (map_object (hash_map false).coll usize_object fd_object) two_entries new),
      ))
    × (contents (hash_map true) m
        ≡ carried (λ entry. entry) (contents (hash_map false) two_entries))
map_arrives_example =
    map_arrives (hash_map false) (hash_map true) usize-Law fd-Law (λ x y v w apart. apart)
      two_entries (omega arith) (((omega arith), (tt, tt)), (((omega arith), (tt, tt)), tt))
