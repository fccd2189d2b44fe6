-- ===== src/Store/Key.antt =====
-- The key under which internal/store/file.go keeps a dedupe row, and the test by which a purge reads
-- the source back from it.
use if_sos_beacon.Base.{
  arith, Bool-cases, inl, inr, ◌&&◌, =ᵗ_iff, =ᵗ_refl, Text, split, ◌=ᵗ◌, ◌≡◌, refl, ℕ, Bool, false,
  List, [], ◌∷◌, ◌++◌, Lacks, append_assoc,
}
use if_sos_beacon.Base.TextLaws.{split-append, split-cons, append-sep_inj}

abbrev pub colon : ℕ
colon = b':'

unfoldable pub key : Text → Text → Text → Text
key beacon source id = beacon ++ colon ∷ (source ++ colon ∷ id)

-- len(parts) >= 3 && parts[1] == source
second_is : Text → List Text → Bool
second_is source (a ∷ b ∷ c ∷ rest) = b =ᵗ source
second_is source _ = false

unfoldable pub is_from : Text → Text → Bool
unfolding second_is split
is_from source k = second_is source (split k colon)

-- Keys of beacons and sources without a colon are equal only if all three parts are.
pub key_inj :
    (b b' s s' i i' : Text)
    → Lacks colon b
    → Lacks colon b'
    → Lacks colon s
    → Lacks colon s'
    → key b s i ≡ key b' s' i'
    → (b ≡ b') × (s ≡ s') × (i ≡ i')
unfolding key
key_inj b b' s s' i i' hb hb' hs hs' e =
    let (eb, rest) = append-sep_inj colon b b' (s ++ colon ∷ i) (s' ++ colon ∷ i') hb hb' e in
    let (es, ei) = append-sep_inj colon s s' i i' hs hs' rest in (eb, es, ei)

-- With a colon in a beacon's name or a source's, different rows share one key.
pub key_collision : (b c s i : Text) → key (b ++ colon ∷ c) s i ≡ key b (c ++ colon ∷ s) i
unfolding key
key_collision b c s i = simp append_assoc

-- The purge test reads the second part of a key whose first two parts have no colon.
pub is_from-key :
    (source b s rest : Text)
    → Lacks colon b
    → Lacks colon s
    → is_from source (b ++ colon ∷ (s ++ colon ∷ rest)) ≡ (s =ᵗ source)
unfolding is_from
is_from-key source b s rest hb hs =
    let (p, ps, e) = split-cons rest [] colon in
    rw (split-append colon b (s ++ colon ∷ rest) hb, split-append colon s rest hs)
      (unfold split in rw e refl)

-- For such names the test on keys is the test on all three parts.
pub key-test :
    (b b' s s' i i' : Text)
    → Lacks colon b
    → Lacks colon b'
    → Lacks colon s
    → Lacks colon s'
    → (key b s i =ᵗ key b' s' i') ≡ (b =ᵗ b' && (s =ᵗ s' && i =ᵗ i'))
key-test b b' s s' i i' hb hb' hs hs' = elim (Bool-cases (key b s i =ᵗ key b' s' i')) [
  | inl e ↦
      let (eb, es, ei) = key_inj b b' s s' i i' hb hb' hs hs' ((=ᵗ_iff _ _).0 e) in
      ground (arith, e, =ᵗ_iff b b', =ᵗ_iff s s', =ᵗ_iff i i')
  | inr n ↦ ground (arith, n, =ᵗ_iff b b', =ᵗ_iff s s', =ᵗ_iff i i', =ᵗ_refl (key b s i))
]

-- With a colon in the beacon's name that part is the tail of the name.
pub is_from-colon :
    (source b b' s i : Text)
    → Lacks colon b
    → Lacks colon b'
    → is_from source (key (b ++ colon ∷ b') s i) ≡ (b' =ᵗ source)
unfolding key
is_from-colon source b b' s i hb hb' =
    rw append_assoc (is_from-key source b b' (s ++ colon ∷ i) hb hb')
