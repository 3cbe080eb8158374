-- ===== src/Libc/Tokens.antt =====
-- Splitting a text into the pieces that it was joined from.
use project_and_training_3_n.Base.{
  ℕ, true, false, sym, ◌≡◌, ◌≢◌, inl, inr, Bool-cases, Option-cases, ==_iff, ◌==◌, refl, ap, ◌∙◌,
  none, some, List, [], ◌∷◌, ◌++◌, Bytes, All, All-append, append_assoc, append-nil, arith,
}
use project_and_training_3_n.Libc.{strchr, emit, tokens_from, strtok}

-- A text in which `c` does not stand.
abbrev pub Lacks : ℕ → Bytes → Type 0
Lacks c = All (λ x. x ≢ c)

pub strchr_append :
    (c : ℕ) (before behind : Bytes)
    → Lacks c before
    → strchr c (before ++ c ∷ behind) ≡ some (before, behind)
unfolding strchr
strchr_append c [] behind l = ground arith
strchr_append c (x ∷ before) behind l = ground (arith, strchr_append c before behind l.1)

-- What `strchr` found is the first.
pub strchr-some :
    (c : ℕ) (s : Bytes) {before behind : Bytes}
    → strchr c s ≡ some (before, behind)
    → Lacks c before × (s ≡ before ++ c ∷ behind)
unfolding strchr
strchr-some c [] e = absurd (cc e)
strchr-some c (x ∷ s) {before} {behind} e = elim (Bool-cases (x == c)) [
  | inl here ↦
      let found : some ([], s) ≡ some (before, behind) = rw (here, strchr) at e in
      let first : [] ≡ before = cc found in
      let rest : s ≡ behind = cc found in
      rw (← first, ← rest) (tt, ap (λ (t : ℕ). t ∷ s) ((==_iff x c).0 here))
  | inr there ↦ elim (Option-cases (strchr c s)) [
    | inl missing ↦
        absurd
          (let never : none ≡ some (before, behind) = rw (there, missing, strchr) at e in cc never)
    | inr ((front, back), found) ↦
        let (lacks, split) = strchr-some c s found in
        let same : some (x ∷ front, back) ≡ some (before, behind) =
          rw (there, found, strchr) at e in
        let first : x ∷ front ≡ before = cc same in
        let rest : back ≡ behind = cc same in
        rw (← first, ← rest)
          (
            (
              λ same_byte.
                  absurd
                    (let hit : true ≡ false = sym ((==_iff x c).1 same_byte) ∙ there in cc hit),
              lacks,
            ),
            ap (◌∷◌ x) split,
          )
  ]
]

pub strchr-none : (c : ℕ) (s : Bytes) → Lacks c s → strchr c s ≡ none
unfolding strchr
strchr-none c [] l = refl
strchr-none c (x ∷ s) l = ground (arith, strchr-none c s l.1)

tokens_from-end : (d : ℕ) (tok w : Bytes) → Lacks d w → tokens_from d tok w ≡ emit (tok ++ w) []
unfolding tokens_from
tokens_from-end d tok [] l = rw append-nil refl
tokens_from-end d tok (x ∷ w) l =
    ground (arith, tokens_from-end d (tok ++ x ∷ []) w l.1, append_assoc tok (x ∷ []) w)

tokens_from-delimiter :
    (d : ℕ) (tok w rest : Bytes)
    → Lacks d w
    → tokens_from d tok (w ++ d ∷ rest) ≡ emit (tok ++ w) (tokens_from d [] rest)
unfolding tokens_from
tokens_from-delimiter d tok [] rest l = rw append-nil (ground arith)
tokens_from-delimiter d tok (x ∷ w) rest l =
    ground (arith, tokens_from-delimiter d (tok ++ x ∷ []) w rest l.1, append_assoc tok (x ∷ []) w)

-- The pieces with one delimiter between two of them.
abbrev pub join : ℕ → List Bytes → Bytes
join d [] = []
join d (w ∷ []) = w
join d (w ∷ u ∷ ws) = w ++ d ∷ join d (u ∷ ws)

-- A piece that comes back.
abbrev pub IsToken : ℕ → Bytes → Type 0
IsToken d w = (w ≢ []) × Lacks d w

emit-nonempty : (w : Bytes) (ts : List Bytes) → w ≢ [] → emit w ts ≡ w ∷ ts
emit-nonempty [] ts h = absurd (h refl)
emit-nonempty (x ∷ w) ts h = refl

-- `strtok` gives back the pieces that were joined, if none is empty or holds the delimiter.
pub strtok-join : (d : ℕ) (ws : List Bytes) → All (IsToken d) ws → strtok d (join d ws) ≡ ws
unfolding strtok
strtok-join d [] v = unfold tokens_from in refl
strtok-join d (w ∷ []) v = tokens_from-end d [] w v.0.1 ∙ emit-nonempty w [] v.0.0
strtok-join d (w ∷ u ∷ ws) v =
    tokens_from-delimiter d [] w (join d (u ∷ ws)) v.0.1
    ∙ emit-nonempty w _ v.0.0
    ∙ ap (◌∷◌ w) (strtok-join d (u ∷ ws) v.1)

pub All-join : (P : ℕ → Type 0) (d : ℕ) (ws : List Bytes) → P d → All (All P) ws → All P (join d ws)
All-join P d [] p v = tt
All-join P d (w ∷ []) p v = v.0
All-join P d (w ∷ u ∷ ws) p v = All-append P w _ v.0 (p, All-join P d (u ∷ ws) p v.1)
