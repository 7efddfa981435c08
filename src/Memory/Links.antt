-- ===== src/Memory/Links.antt =====
-- Linked nodes that several threads share: a heap in which every cell has a node, since the pool gives
-- no memory back while its client lives, and what the links lead through.
use boost_lockfree.Prelude.{
  ℕ, ◌+◌, ◌<◌, ◌≡◌, ◌≢◌, refl, sym, ap, subst, ◌∙◌, arith, false, ◌==◌, if◌then◌else◌, List, [],
  ◌∷◌, ◌++◌, Bool-cases, ==_iff, inl, inr,
}
use boost_lockfree.TaggedPtr.{TaggedPtrOps}
use boost_lockfree.Memory.{Node, null}

abbrev pub update : {B : Type 0} → (ℕ → B) → ℕ → B → ℕ → B
update f a x b = if b == a then x else f b

abbrev pub occurrences : ℕ → List ℕ → ℕ
occurrences a [] = 0
occurrences a (b ∷ bs) = (if a == b then 1 else 0) + occurrences a bs

pub occurrences-append :
    (b : ℕ) (xs ys : List ℕ) → occurrences b (xs ++ ys) ≡ occurrences b xs + occurrences b ys
occurrences-append b [] ys = omega arith
occurrences-append b (x ∷ xs) ys = omega (arith, occurrences-append b xs ys)

module _ (P : TaggedPtrOps) {A : Type 0} where
  abbrev pub set_value : ℕ → A → (ℕ → Node P.Rep A) → ℕ → Node P.Rep A
  set_value n v cells = update cells n (record { next = (cells n).next; value = v })

  abbrev pub set_link : ℕ → P.Rep → (ℕ → Node P.Rep A) → ℕ → Node P.Rep A
  set_link n r cells = update cells n (record { next = r; value = (cells n).value })

  -- From the address `p` the links lead through the nodes to null.
  abbrev pub Links : (ℕ → Node P.Rep A) → ℕ → List ℕ → Type 0
  Links cells p [] = p ≡ null
  Links cells p (a ∷ rest) = (p ≡ a) × (a ≢ null) × Links cells (P.get_ptr (cells a).next) rest

  abbrev pub contents : (ℕ → Node P.Rep A) → List ℕ → List A
  contents cells [] = []
  contents cells (a ∷ rest) = (cells a).value ∷ contents cells rest

  pub Links-lt :
      (cells : ℕ → Node P.Rep A) (p : ℕ) (nodes : List ℕ)
      → Links cells p nodes
      → ((b : ℕ) → 0 < occurrences b nodes → b < P.ptr_limit)
      → p < P.ptr_limit
  Links-lt cells p [] l small = rw l P.some_limit
  Links-lt cells p (a ∷ rest) l small = rw l.0 (small a (ground arith))

  pub Links-frame :
      (cells cells' : ℕ → Node P.Rep A) (p : ℕ) (nodes : List ℕ)
      → Links cells p nodes
      → ((b : ℕ) → 0 < occurrences b nodes → cells' b ≡ cells b)
      → Links cells' p nodes
  Links-frame cells cells' p [] e same = e
  Links-frame cells cells' p (a ∷ rest) (e, ne, more) same = (
    e,
    ne,
    rw (same a (ground arith)) (
        Links-frame cells cells' (P.get_ptr (cells a).next) rest more
          (λ b h. same b (ground arith))),
  )

  pub contents-frame :
      (cells cells' : ℕ → Node P.Rep A) (nodes : List ℕ)
      → ((b : ℕ) → 0 < occurrences b nodes → (cells' b).value ≡ (cells b).value)
      → contents cells' nodes ≡ contents cells nodes
  contents-frame cells cells' [] same = refl
  contents-frame cells cells' (a ∷ rest) same =
      rw (same a (ground arith), contents-frame cells cells' rest (λ b h. same b (ground arith)))
        refl

  pub contents-append :
      (cells : ℕ → Node P.Rep A) (nodes : List ℕ) (n : ℕ)
      → contents cells (nodes ++ n ∷ []) ≡ contents cells nodes ++ (cells n).value ∷ []
  contents-append cells [] n = refl
  contents-append cells (a ∷ rest) n =
      ap (λ xs. (cells a).value ∷ xs) (contents-append cells rest n)

  module _ (cells : ℕ → Node P.Rep A) where
    -- A node after which the links end is the last.
    pub Links-last :
        (p t : ℕ) (rest : List ℕ)
        → Links cells p (t ∷ rest)
        → P.get_ptr (cells t).next ≡ null
        → rest ≡ []
    Links-last p t [] l e = refl
    Links-last p t (b ∷ more) l e = absurd (l.2.1 (sym l.2.0 ∙ e))

    -- The node after one of the nodes is among those after the first.
    pub Links-next :
        (p b a : ℕ) (rest : List ℕ)
        → Links cells p (a ∷ rest)
        → 0 < occurrences b (a ∷ rest)
        → P.get_ptr (cells b).next ≢ null
        → 0 < occurrences (P.get_ptr (cells b).next) rest
    Links-next p b a [] l h ne = let e : b ≡ a = ground (arith, h) in absurd (ne (rw e l.2))
    Links-next p b a (c ∷ rest) l h ne = elim (Bool-cases (b == a)) [
      | inl same ↦ let e : b ≡ a = (==_iff b a).0 same in rw (e, l.2.0) (ground arith)
      | inr other ↦
          let later : 0 < occurrences b (c ∷ rest) = ground (arith, h, other) in
          let more = Links-next (P.get_ptr (cells a).next) b c rest l.2 later ne in
          omega (arith, more)
    ]

    -- The node `n` goes after the last node.
    module _ (n t : ℕ) (r : P.Rep) (to_n : P.get_ptr r ≡ n) (ne_null : n ≢ null)
        (ends : P.get_ptr (cells n).next ≡ null) (n_off : n ≢ t)
        (t_last : P.get_ptr (cells t).next ≡ null) where
      ends_there : Links (set_link t r cells) (P.get_ptr r) (n ∷ [])
      ends_there = let away : (n == t) ≡ false = ground arith in (to_n, ne_null, rw away ends)

      pub Links-append :
          (p : ℕ) (nodes : List ℕ)
          → Links cells p nodes
          → 0 < occurrences t nodes
          → occurrences n nodes ≡ 0
          → Links (set_link t r cells) p (nodes ++ n ∷ [])
      Links-append p [] l h off = absurd (omega (arith, h))
      Links-append p (a ∷ rest) l h off = elim (Bool-cases (a == t)) [
        | inl same ↦
            let e : a ≡ t = (==_iff a t).0 same in
            let none : rest ≡ [] =
              Links-last p t rest (subst (λ x. Links cells p (x ∷ rest)) e l) t_last in
            (l.0, l.1, rw (none, same) ends_there)
        | inr other ↦ (
          l.0,
          l.1,
          rw other (
              Links-append (P.get_ptr (cells a).next) rest l.2 (ground (arith, h, other))
                (omega (arith, off))),
        )
      ]
