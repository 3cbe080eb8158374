-- ===== src/Vswitch/ArgsLaws.antt =====
-- The configurations that the command line of vswitch.c gives, and the texts that give them.
use mathlib.Core.Option.{some-injective}
use mathlib.Core.Bool.{false≢true}
use project_and_training_3_n.Base.{
  ℕ, suc, ◌+◌, ◌%◌, ◌^◌, ◌≤◌, ◌<◌, ◌≡◌, ◌⊎◌, inl, inr, refl, sym, ap, ◌∙◌, true, false, Option,
  none, some, List, [], ◌∷◌, ◌++◌, Bytes, ◌==◌, ltb, le→ltb, Bool-cases, Option-cases, length, All,
  subst, arith,
}
use project_and_training_3_n.Libc.{is_digit, strchr, strtok, scan_uint}
use project_and_training_3_n.Libc.Scan.{IsNumber, scan_uint-IsNumber}
use project_and_training_3_n.Libc.Tokens.{
  Lacks, IsToken, join, strchr_append, strtok-join, All-join,
}
use project_and_training_3_n.Vswitch.{Interface, Vswitch, max_vlans}
use project_and_training_3_n.Vswitch.Args.{
  parse_tags, parse_tagged, parse_untagged, parse_spec, parse_vlan_args, parse_args, start, fresh,
  zeroed,
}
use project_and_training_3_n.Vswitch.Invariant.{Numbered, IsValid}

-- An interface is untagged or tagged, never both, and its VLANs are in range and fit the array.
pub record IsConfig (ifc : Interface) : Type 0 where
  pub one_kind : (ifc.untagged_vlan ≡ none) ⊎ (ifc.tagged_vlans ≡ [])
  pub tagged_in : All (λ v. v ≤ max_vlans) ifc.tagged_vlans
  pub fits : length ifc.tagged_vlans ≤ max_vlans
  pub untagged_in : (v : ℕ) → ifc.untagged_vlan ≡ some v → v ≤ max_vlans

-- What holds of the value if there is one.
abbrev Ensures {ℓ} : {A : Type ℓ} → (A → Type 0) → Option A → Type 0
Ensures P none = Unit
Ensures P (some a) = P a

Ensures-some {ℓ} :
    {A : Type ℓ} (P : A → Type 0) (o : Option A) {a : A} → Ensures P o → o ≡ some a → P a
Ensures-some P none h e = absurd (cc e)
Ensures-some P (some b) h e = subst P (some-injective _ _ e) h

abbrev InRange : ℕ → List ℕ → Type 0
InRange pos tags = All (λ v. v ≤ max_vlans) tags × (pos + length tags ≤ max_vlans)

cons-InRange :
    (pos tag : ℕ) (o : Option (List ℕ))
    → tag ≤ max_vlans
    → Ensures (InRange (pos + 1)) o
    → Ensures (InRange pos) (elim o [ none ↦ none | some tags ↦ some (tag ∷ tags) ])
cons-InRange pos tag none h e = tt
cons-InRange pos tag (some tags) h e = ((h, e.0), omega arith)

parse_tags-InRange :
    (pos : ℕ) (toks : List Bytes) → pos ≤ max_vlans → Ensures (InRange pos) (parse_tags pos toks)
unfolding parse_tags
parse_tags-InRange pos [] h = (tt, omega arith)
parse_tags-InRange pos (tok ∷ toks) h = elim (Bool-cases (pos == max_vlans)) [
  | inl full ↦ rw full tt
  | inr room ↦ elim (Option-cases (scan_uint tok)) [
    | inl bad ↦ rw (room, bad) tt
    | inr (tag, number) ↦ elim (Bool-cases (ltb max_vlans tag)) [
      | inl large ↦ rw (room, number, large) tt
      | inr small ↦
          rw (room, number, small)
            (cons-InRange pos tag (parse_tags (pos + 1) toks) (ground arith)
              (parse_tags-InRange (pos + 1) toks (ground arith)))
    ]
  ]
]

parse_tagged-InRange : (spec : Bytes) → Ensures (InRange 0) (parse_tagged spec)
unfolding parse_tagged
parse_tagged-InRange [] = tt
parse_tagged-InRange (c ∷ spec) = elim (Bool-cases (c == b':')) [
  | inl colon ↦ rw colon (parse_tags-InRange 0 (strtok b',' spec) (omega arith))
  | inr other ↦ rw other tt
]

parse_untagged-le : (spec : Bytes) → Ensures (λ v. v ≤ max_vlans) (parse_untagged spec)
unfolding parse_untagged
parse_untagged-le [] = tt
parse_untagged-le (c ∷ spec) = elim (Bool-cases (c == b':')) [
  | inl colon ↦ elim (Option-cases (scan_uint spec)) [
    | inl bad ↦ rw (colon, bad) tt
    | inr (tag, number) ↦ elim (Bool-cases (ltb max_vlans tag)) [
      | inl large ↦ rw (colon, number, large) tt
      | inr small ↦ rw (colon, number, small) (ground arith)
    ]
  ]
  | inr other ↦ rw other tt
]

abbrev IsParsed : ℕ → Interface → Type 0
IsParsed i ifc = IsConfig ifc × (ifc.ifc_num ≡ i)

parse_spec-IsParsed : (i : ℕ) (name spec : Bytes) → Ensures (IsParsed i) (parse_spec i name spec)
unfolding parse_spec
parse_spec-IsParsed i name [] = tt
parse_spec-IsParsed i name (c ∷ spec) = elim (Bool-cases (c == b'T')) [
  | inl tagged ↦ rw tagged (of_tags (parse_tagged spec) (parse_tagged-InRange spec))
  | inr other ↦ elim (Bool-cases (c == b'U')) [
    | inl untagged ↦ rw (other, untagged) (of_tag (parse_untagged spec) (parse_untagged-le spec))
    | inr bad ↦ rw (other, bad) tt
  ]
]
  where
    of_tags :
        (o : Option (List ℕ))
        → Ensures (InRange 0) o
        → Ensures (IsParsed i) (elim o [ none ↦ none | some tags ↦ some (fresh i name tags none) ])
    of_tags none h = tt
    of_tags (some tags) h = (
      record {
        one_kind = inl refl;
        tagged_in = h.0;
        fits = omega arith;
        untagged_in = λ v e. absurd (cc e);
      },
      refl,
    )

    of_tag :
        (o : Option ℕ)
        → Ensures (λ v. v ≤ max_vlans) o
        → Ensures
            (IsParsed i)
            (elim o [ none ↦ none | some tag ↦ some (fresh i name [] (some tag)) ])
    of_tag none h = tt
    of_tag (some tag) h = (
      record {
        one_kind = inr refl;
        tagged_in = tt;
        fits = omega arith;
        untagged_in = λ v e. ground arith;
      },
      refl,
    )

parse_vlan_args-IsParsed : (i : ℕ) (arg : Bytes) → Ensures (IsParsed i) (parse_vlan_args i arg)
unfolding parse_vlan_args
parse_vlan_args-IsParsed i arg = elim (Option-cases (strchr b'[' arg)) [
  | inl plain ↦
      rw (plain, parse_vlan_args)
        (
          record {
            one_kind = inr refl;
            tagged_in = tt;
            fits = omega arith;
            untagged_in = λ v e. ground arith;
          },
          refl,
        )
  | inr ((name, behind), open_) ↦ elim (Option-cases (strchr b']' behind)) [
    | inl unclosed ↦ rw (open_, parse_vlan_args, unclosed) tt
    | inr ((spec, rest), close) ↦
        rw (open_, parse_vlan_args, close) (parse_spec-IsParsed i name spec)
  ]
]

abbrev AllParsed : ℕ → List Bytes → List Interface → Type 0
AllParsed i args gifc =
    All IsConfig gifc × (length gifc ≡ length args) × (i + length args < 2 ^ 16 → Numbered i gifc)

cons-AllParsed :
    (i : ℕ) (arg : Bytes) (args : List Bytes) (o : Option Interface) (p : Option (List Interface))
    → Ensures (IsParsed ((i + 1) % 2 ^ 16)) o
    → Ensures (AllParsed (i + 1) args) p
    → Ensures
        (AllParsed i (arg ∷ args))
        (elim o [ none ↦ none | some ifc ↦ elim p [ none ↦ none | some gifc ↦ some (ifc ∷ gifc) ] ])
cons-AllParsed i arg args none p h k = tt
cons-AllParsed i arg args (some ifc) none h k = tt
cons-AllParsed i arg args (some ifc) (some gifc) h k = (
  (h.0, k.0),
  ap suc k.1,
  λ small. (
    omega (arith, h.1),
    subst (λ n. Numbered n gifc) (let e : i + 1 ≡ suc i = omega arith in e) (k.2 (omega arith)),
  ),
)

parse_args-AllParsed :
    (i : ℕ) (args : List Bytes) → Ensures (AllParsed i args) (parse_args (i + 1) args)
unfolding parse_args
parse_args-AllParsed i [] = (tt, refl, λ _. tt)
parse_args-AllParsed i (arg ∷ args) =
    cons-AllParsed i arg args (parse_vlan_args ((i + 1) % 2 ^ 16) arg) (parse_args (i + 1 + 1) args)
      (parse_vlan_args-IsParsed ((i + 1) % 2 ^ 16) arg) (parse_args-AllParsed (i + 1) args)

-- What `main` starts the loop with is a well-formed state with one interface for each argument, if
-- there are fewer than 2 ^ 16 of them: interface `n` stands at index `n - 1`, has no untagged VLAN
-- together with tagged ones, though it may have neither, and no VLAN number exceeds 4094.
pub start-IsValid :
    (args : List Bytes) {sw : Vswitch}
    → length args < 2 ^ 16
    → start args ≡ some sw
    → IsValid sw × All IsConfig sw.gifc × (length sw.gifc ≡ length args)
unfolding start
start-IsValid args {sw} few e = from (parse_args 1 args) (parse_args-AllParsed 0 args) e
  where
    from :
        (o : Option (List Interface))
        → Ensures (AllParsed 0 args) o
        → elim o [
          | none ↦ none
          | some gifc ↦ some (record { gifc = gifc; mac_table = λ _. zeroed })
        ]
          ≡ some sw
        → IsValid sw × All IsConfig sw.gifc × (length sw.gifc ≡ length args)
    from none h q = absurd (cc q)
    from (some gifc) h q =
        subst (λ (s : Vswitch). IsValid s × All IsConfig s.gifc × (length s.gifc ≡ length args))
          (some-injective _ _ q)
          (
            record {
              numbered = h.2 (omega arith);
              learned = λ i. record {
                placed = λ f. absurd (cc f);
                single = λ f. absurd (cc f);
                member = λ f. absurd (cc f);
              };
            },
            h.0,
            h.1,
          )

-- The texts of numbers, and the numbers.
abbrev pub Writes : List Bytes → List ℕ → Type 0
Writes [] [] = Unit
Writes (t ∷ ts) (n ∷ ns) = IsNumber t n × (n ≤ max_vlans) × Writes ts ns
Writes _ _ = ⊥

digits-Lacks : (c : ℕ) (s : Bytes) → is_digit c ≡ false → All (λ x. is_digit x ≡ true) s → Lacks c s
digits-Lacks c [] h d = tt
digits-Lacks c (x ∷ s) h d = ((λ e. false≢true (sym h ∙ (rw e at d.0))), digits-Lacks c s h d.1)

Writes-tokens : (toks : List Bytes) (tags : List ℕ) → Writes toks tags → All (IsToken b',') toks
unfolding is_digit
Writes-tokens [] [] w = tt
Writes-tokens [] (n ∷ ns) w = absurd w
Writes-tokens (t ∷ ts) [] w = absurd w
Writes-tokens (t ∷ ts) (n ∷ ns) w =
    ((w.0.nonempty, digits-Lacks b',' t refl w.0.digits), Writes-tokens ts ns w.2)

Writes-unclosed : (toks : List Bytes) (tags : List ℕ) → Writes toks tags → All (Lacks b']') toks
unfolding is_digit
Writes-unclosed [] [] w = tt
Writes-unclosed [] (n ∷ ns) w = absurd w
Writes-unclosed (t ∷ ts) [] w = absurd w
Writes-unclosed (t ∷ ts) (n ∷ ns) w =
    (digits-Lacks b']' t refl w.0.digits, Writes-unclosed ts ns w.2)

parse_tags-Writes :
    (pos : ℕ) (toks : List Bytes) (tags : List ℕ)
    → Writes toks tags
    → pos + length tags ≤ max_vlans
    → parse_tags pos toks ≡ some tags
unfolding parse_tags
parse_tags-Writes pos [] [] w h = refl
parse_tags-Writes pos [] (n ∷ ns) w h = absurd w
parse_tags-Writes pos (t ∷ ts) [] w h = absurd w
parse_tags-Writes pos (t ∷ ts) (n ∷ ns) w h =
    let room : (pos == max_vlans) ≡ false = ground arith in
    rw
      (
        room,
        scan_uint-IsNumber t w.0 (omega arith),
        le→ltb max_vlans n w.1,
        parse_tags-Writes (pos + 1) ts ns w.2 (omega arith),
      )
      refl

-- An argument "NAME[T:N,...,N]", with no '[' in the name and at most 4094 numbers, none above
-- 4094, gives a tagged interface of that name with these VLANs, in that order. What stands behind
-- the bracket is ignored.
pub parse_vlan_args-tagged :
    (i : ℕ) (name rest : Bytes) (toks : List Bytes) (tags : List ℕ)
    → Lacks b'[' name
    → Writes toks tags
    → length tags ≤ max_vlans
    → parse_vlan_args i (name ++ b'[' ∷ b'T' ∷ b':' ∷ (join b',' toks ++ b']' ∷ rest))
      ≡ some (fresh i name tags none)
unfolding parse_vlan_args
parse_vlan_args-tagged i name rest toks tags plain w few =
    let closed : Lacks b']' (b'T' ∷ b':' ∷ join b',' toks) = (
      omega arith,
      (omega arith, All-join _ b',' toks (omega arith) (Writes-unclosed toks tags w)),
    ) in
    rw
      (
        strchr_append b'[' name (b'T' ∷ b':' ∷ (join b',' toks ++ b']' ∷ rest)) plain,
        parse_vlan_args,
        strchr_append b']' (b'T' ∷ b':' ∷ join b',' toks) rest closed,
        strtok-join b',' toks (Writes-tokens toks tags w),
        parse_tags-Writes 0 toks tags w (omega arith),
      )
      refl

-- An argument "NAME[U:N]", with no '[' in the name and a number up to 4094, gives an untagged
-- interface of that name in that VLAN. What stands behind the bracket is ignored.
pub parse_vlan_args-untagged :
    (i : ℕ) (name rest tok : Bytes) (tag : ℕ)
    → Lacks b'[' name
    → IsNumber tok tag
    → tag ≤ max_vlans
    → parse_vlan_args i (name ++ b'[' ∷ b'U' ∷ b':' ∷ (tok ++ b']' ∷ rest))
      ≡ some (fresh i name [] (some tag))
unfolding parse_vlan_args
parse_vlan_args-untagged i name rest tok tag plain w small =
    let closed : Lacks b']' (b'U' ∷ b':' ∷ tok) =
      (omega arith, (omega arith, digits-Lacks b']' tok (unfold is_digit in refl) w.digits)) in
    rw
      (
        strchr_append b'[' name (b'U' ∷ b':' ∷ (tok ++ b']' ∷ rest)) plain,
        parse_vlan_args,
        strchr_append b']' (b'U' ∷ b':' ∷ tok) rest closed,
        scan_uint-IsNumber tok w (omega arith),
        le→ltb max_vlans tag small,
      )
      refl
