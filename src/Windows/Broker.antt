-- ===== src/Windows/Broker.antt =====
-- Lists of handles that are copied into the broker and stolen from it.
use crossmist.Common.{
  ℕ, ◌≡◌, ◌≢◌, ◌⊎◌, inl, inr, refl, sym, ap, ◌∙◌, none, some, List, [], ◌∷◌, ◌++◌, All, length, suc,
  arith,
}
use crossmist.Builtins.Sum.{ok_value, err_value}
use crossmist.Builtins.Scalars.{IsUnsigned, usize_size}
use crossmist.Unix.Socket.{Error}
use crossmist.Windows.{HandleBroker, collected, and_rest, try_each}

module _ (broker : HandleBroker) where
  open broker use {Table, holds, copy, steal, copy_lem, steal_lem}

  -- Different handles of the broker, and what they name.
  pub data Holds (t : Table) : List ℕ → List ℕ → Type 0 where
    holds_none : Holds t [] []
    holds_next :
        (r h : ℕ) {rs hs : List ℕ}
        → holds t r ≡ some h
        → All (λ q. q ≢ r) rs
        → Holds t rs hs
        → Holds t (r ∷ rs) (h ∷ hs)

  -- Handles stay open.
  abbrev Keeps : Table → Table → Type 0
  Keeps t t' = (q h : ℕ) → holds t q ≡ some h → holds t' q ≡ some h

  abbrev Fresh : Table → List ℕ → Type 0
  Fresh t rs = All (λ q. holds t q ≡ none) rs

  apart : (t : Table) (q r h : ℕ) → holds t q ≡ none → holds t r ≡ some h → q ≢ r
  apart t q r h e e' same = let f = ap (holds t) same in cc

  All-apart :
      (t : Table) (r h : ℕ) (rs : List ℕ) → holds t r ≡ some h → Fresh t rs → All (λ q. q ≢ r) rs
  All-apart t r h [] e fresh = tt
  All-apart t r h (q ∷ rs) e (f, fresh) = (apart t q r h f e, All-apart t r h rs e fresh)

  All-append : (P : ℕ → Type 0) (xs ys : List ℕ) → All P xs → All P ys → All P (xs ++ ys)
  All-append P [] ys h k = k
  All-append P (x ∷ xs) ys (h, hs) k = (h, All-append P xs ys hs k)

  pub Holds-append :
      {t t' : Table} {rs hs rs' hs' : List ℕ}
      → Holds t rs hs
      → Keeps t t'
      → Fresh t rs'
      → Holds t' rs' hs'
      → Holds t' (rs ++ rs') (hs ++ hs')
  Holds-append holds_none keeps fresh rest = rest
  Holds-append {t} {rs' = rs'} (holds_next r h {rs} e others more) keeps fresh rest =
      holds_next r h (keeps r h e)
        (All-append (λ q. q ≢ r) rs rs' others (All-apart t r h rs' e fresh))
        (Holds-append more keeps fresh rest)

  -- What copying a list comes to.
  pub record Copied (hs : List ℕ) (t : Table) : Type 0 where
    pub remotes : List ℕ
    pub after : Table
    pub copied_lem : try_each copy hs t ≡ (ok_value remotes, after)
    pub unsigned_lem : All (IsUnsigned usize_size) remotes
    pub length_lem : length remotes ≡ length hs
    pub held : Holds after remotes hs
    pub keeps : Keeps t after
    pub fresh : Fresh t remotes

  older :
      (t t₁ : Table) (r h : ℕ) (rs : List ℕ)
      → holds t₁ r ≡ some h
      → ((q : ℕ) → q ≢ r → holds t₁ q ≡ holds t q)
      → Fresh t₁ rs
      → Fresh t rs
  older t t₁ r h [] e same fresh = tt
  older t t₁ r h (q ∷ rs) e same (f, fresh) =
      (sym (same q (apart t₁ q r h f e)) ∙ f, older t t₁ r h rs e same fresh)

  pub copy_each :
      (hs : List ℕ) (t : Table)
      → Copied hs t ⊎ ((e : Error) × (t' : Table) × (try_each copy hs t ≡ (err_value e, t')))
  unfolding try_each
  copy_each [] t = inl (record {
    remotes = [];
    after = t;
    copied_lem = refl;
    unsigned_lem = tt;
    length_lem = refl;
    held = holds_none;
    keeps = λ q h e. e;
    fresh = tt;
  })
  copy_each (h ∷ hs) t = elim (copy_lem h t) [
    | inr (x, t₁, e) ↦ inr (x, t₁, rw (e, and_rest))
    | inl (r, t₁, e, u, free, new, same) ↦ elim (copy_each hs t₁) [
      | inr (x, t₂, e') ↦ inr (x, t₂, rw (e, and_rest) (rw (e', collected)))
      | inl c ↦ inl (record {
        remotes = r ∷ c.remotes;
        after = c.after;
        copied_lem = rw (e, and_rest) (rw (c.copied_lem, collected));
        unsigned_lem = (u, c.unsigned_lem);
        length_lem = ap suc c.length_lem;
        held = Holds-append (holds_next r h new tt holds_none) c.keeps c.fresh c.held;
        keeps = λ q g k. c.keeps q g (same q (λ is_r. let f = ap (holds t) is_r in cc) ∙ k);
        fresh = (free, older t t₁ r h c.remotes new same c.fresh);
      })
    ]
  ]

  still :
      {t t' : Table} {r : ℕ} {rs hs : List ℕ}
      → ((q : ℕ) → q ≢ r → holds t' q ≡ holds t q)
      → Holds t rs hs
      → All (λ q. q ≢ r) rs
      → Holds t' rs hs
  still same holds_none others = holds_none
  still same (holds_next q h e apart_lem more) (o, others) =
      holds_next q h (same q o ∙ e) apart_lem (still same more others)

  -- The first of the handles are stolen, the others stay.
  pub steal_each :
      (rs hs : List ℕ) {rs' hs' : List ℕ} (t : Table)
      → length rs ≡ length hs
      → Holds t (rs ++ rs') (hs ++ hs')
      → ((t' : Table) × (try_each steal rs t ≡ (ok_value hs, t')) × Holds t' rs' hs')
        ⊎ ((e : Error) × (t' : Table) × (try_each steal rs t ≡ (err_value e, t')))
  unfolding try_each
  steal_each [] [] t len held = inl (t, refl, held)
  steal_each [] (h ∷ hs) t len held = cc
  steal_each (r ∷ rs) [] t len held = cc
  steal_each (r ∷ rs) (h ∷ hs) t len (holds_next r₁ h₁ e others more) = elim (steal_lem r h t e) [
    | inr (x, t₁, e') ↦ inr (x, t₁, rw (e', and_rest))
    | inl (t₁, e', same) ↦
        elim (steal_each rs hs t₁ (omega (arith, len)) (still same more others)) [
          | inr (x, t₂, e'') ↦ inr (x, t₂, rw (e', and_rest) (rw (e'', collected)))
          | inl (t₂, e'', held) ↦ inl (t₂, rw (e', and_rest) (rw (e'', collected)), held)
        ]
  ]
