-- ===== src/Agent/Transcript/Compact.antt =====
-- What `compact` keeps: a suffix, cut at a real user turn, that fits or is the newest turn.
use sigil_pi.Prelude.{
  ℕ, suc, ◌+◌, ◌≤◌, ◌≡◌, ◌⊎◌, inl, inr, refl, ap, sym, subst, Bool, true, false, List, [], ◌∷◌, map,
  arith, length, drop, leb, leb→le, Each, Bool-cases, if◌then◌else◌, ◌∙◌,
}
use sigil_pi.Agent.Transcript.{
  Message, starts_segment, starts_from, segment_starts, history_bytes, first_fit, cut_at, compact,
}

-- The list opens on a real user turn.
abbrev pub Opens : List Message → Type 0
Opens [] = ⊥
Opens (m ∷ ms) = starts_segment m ≡ true

-- None of the messages is a real user turn.
abbrev pub NoStart : List Message → Type 0
NoStart ms = Each (λ (m : Message). starts_segment m ≡ false) ms

abbrev pub tail : List Message → List Message
tail [] = []
tail (m ∷ ms) = ms

pub data IsSuffix (s : List Message) : List Message → Type 0 where
  here : IsSuffix s s
  there : {m : Message} {t : List Message} → IsSuffix s t → IsSuffix s (m ∷ t)

IsSuffix-trans : {r s t : List Message} → IsSuffix r s → IsSuffix s t → IsSuffix r t
IsSuffix-trans p here = p
IsSuffix-trans p (there q) = there (IsSuffix-trans p q)

length-IsSuffix : {s t : List Message} → IsSuffix s t → length s ≤ length t
length-IsSuffix here = omega arith
length-IsSuffix (there p) = omega (arith, length-IsSuffix p)

-- The suffixes that `segment_starts` points at.
suffixes : List Message → List (List Message)
suffixes [] = []
suffixes (m ∷ ms) = let rest = suffixes ms in if starts_segment m then (m ∷ ms) ∷ rest else rest

map-starts_from :
    (i : ℕ) (ms : List Message) (f : ℕ → List Message)
    → ((j : ℕ) → f (i + j) ≡ drop j ms)
    → map f (starts_from i ms) ≡ suffixes ms
unfolding starts_from suffixes
map-starts_from i [] f h = refl
map-starts_from i (m ∷ ms) f h =
    let e : f i ≡ m ∷ ms = ap f (omega arith) ∙ h 0 in
    let ih = map-starts_from (suc i) ms f (λ j. ap f (omega arith) ∙ h (suc j)) in
    elim (Bool-cases (starts_segment m)) [
      | inl start ↦ rw (start, e, ih)
      | inr inside ↦ rw (inside, ih)
    ]

suffixes-nil : (ms : List Message) → suffixes ms ≡ [] → NoStart ms
unfolding suffixes
suffixes-nil [] e = tt
suffixes-nil (m ∷ ms) e = ground (arith, suffixes-nil ms)

suffixes_start :
    (m : Message) (t : List Message)
    → starts_segment m ≡ true
    → suffixes (m ∷ t) ≡ (m ∷ t) ∷ suffixes t
unfolding suffixes
suffixes_start m t start = rw start

suffixes_inside :
    (m : Message) (t : List Message) → starts_segment m ≡ false → suffixes (m ∷ t) ≡ suffixes t
unfolding suffixes
suffixes_inside m t inside = rw inside

IsSuffix-tail : {r : List Message} (t : List Message) → IsSuffix r (tail t) → IsSuffix r t
IsSuffix-tail [] p = p
IsSuffix-tail (m ∷ t) p = there p

not-Opens-IsSuffix : {s : List Message} → IsSuffix s [] → Opens s → ⊥
not-Opens-IsSuffix here o = o

module _ (dumps : List Message → List ℕ) (limit : ℕ) where
  abbrev fits : List Message → Bool
  fits s = leb (history_bytes dumps s) limit

  -- The loop of `compact` over the suffixes themselves.
  pick : List Message → List (List Message) → List Message
  pick last [] = last
  pick last (s ∷ ss) = let rest = pick s ss in if fits s then s else rest

  first_fit-eq-pick :
      (ms : List Message) (last : ℕ) (cuts : List ℕ)
      → first_fit dumps ms limit last cuts ≡ pick (drop last ms) (map (λ k. drop k ms) cuts)
  unfolding first_fit pick
  first_fit-eq-pick ms last [] = refl
  first_fit-eq-pick ms last (cut ∷ cuts) = ground (arith, first_fit-eq-pick ms cut cuts)

  pick-fits :
      (last s : List Message) (ss : List (List Message)) → fits s ≡ true → pick last (s ∷ ss) ≡ s
  unfolding pick
  pick-fits last s ss e = rw e

  pick_over :
      (last s : List Message) (ss : List (List Message))
      → fits s ≡ false
      → pick last (s ∷ ss) ≡ pick s ss
  unfolding pick
  pick_over last s ss e = rw e

  -- `r` is at least as long as each suffix of `t` that opens on a user turn and fits.
  abbrev Longest : List Message → List Message → Type 0
  Longest t r =
      (s : List Message)
      → IsSuffix s t
      → Opens s
      → history_bytes dumps s ≤ limit
      → length s ≤ length r

  Longest-over :
      (m : Message) (t r : List Message) → fits (m ∷ t) ≡ false → Longest t r → Longest (m ∷ t) r
  Longest-over m t r over ih s here o small = absurd (ground arith)
  Longest-over m t r over ih s (there q) o small = ih s q o small

  Longest-inside :
      (m : Message) (t r : List Message)
      → starts_segment m ≡ false
      → Longest t r
      → Longest (m ∷ t) r
  Longest-inside m t r inside ih s here o small = absurd (ground arith)
  Longest-inside m t r inside ih s (there q) o small = ih s q o small

  -- What the loop returns, from the start `last` on, with the messages `t` still to be searched.
  record Picked (last t r : List Message) : Type 0 where
    opens : Opens r
    suffix : IsSuffix r last
    small : (history_bytes dumps r ≤ limit) ⊎ NoStart (tail r)
    longest : Longest t r

  pick-Picked :
      (last t : List Message)
      → Opens last
      → IsSuffix t (tail last)
      → suffixes (tail last) ≡ suffixes t
      → Picked last t (pick last (suffixes t))
  unfolding suffixes pick
  pick-Picked last [] o p e = record {
    opens = o;
    suffix = here;
    small = inr (suffixes-nil (tail last) e);
    longest = λ s q os small. absurd (not-Opens-IsSuffix q os);
  }
  pick-Picked last (m ∷ t) o p e = elim (Bool-cases (starts_segment m)) [
    | inl start ↦ elim (Bool-cases (fits (m ∷ t))) [
      | inl small ↦
          rw (suffixes_start m t start, pick-fits last (m ∷ t) (suffixes t) small)
            (record {
              opens = start;
              suffix = IsSuffix-tail last p;
              small = inl (leb→le _ _ small);
              longest = λ s q os f. length-IsSuffix q;
            })
      | inr over ↦
          let ih = pick-Picked (m ∷ t) t start here refl in
          rw (suffixes_start m t start, pick_over last (m ∷ t) (suffixes t) over)
            (record {
              opens = ih.opens;
              suffix = IsSuffix-trans ih.suffix (IsSuffix-tail last p);
              small = ih.small;
              longest = Longest-over m t _ over ih.longest;
            })
    ]
    | inr inside ↦
        let ih =
          pick-Picked last t o (IsSuffix-trans (there here) p) (e ∙ suffixes_inside m t inside) in
        rw (suffixes_inside m t inside) (record {
          opens = ih.opens;
          suffix = ih.suffix;
          small = ih.small;
          longest = Longest-inside m t _ inside ih.longest;
        })
  ]

  suffixes-cons :
      (ms s : List Message) (ss : List (List Message))
      → s ∷ ss ≡ suffixes ms
      → Opens s × IsSuffix s ms × (ss ≡ suffixes (tail s))
  unfolding suffixes
  suffixes-cons [] s ss e = absurd (ground arith)
  suffixes-cons (m ∷ ms) s ss e = elim (Bool-cases (starts_segment m)) [
    | inl start ↦
        let e' = e ∙ suffixes_start m ms start in
        let es : m ∷ ms ≡ s = cc in
        let er : suffixes ms ≡ ss = cc in rw (← es) (start, here, sym er)
    | inr inside ↦
        let (o, p, q) = suffixes-cons ms s ss (e ∙ suffixes_inside m ms inside) in (o, there p, q)
  ]

  -- What `compact` returns for the messages `ms`.
  pub record Compacted (ms r : List Message) : Type 0 where
    pub suffix : IsSuffix r ms
    pub cut : (r ≡ ms) ⊎ Opens r
    pub small : (history_bytes dumps r ≤ limit) ⊎ NoStart (tail r)
    pub longest : Opens ms → Longest (tail ms) r

  NoStart-tail : (ms : List Message) → NoStart ms → NoStart (tail ms)
  NoStart-tail [] h = tt
  NoStart-tail (m ∷ ms) h = h.1

  suffixes-Opens : (ms : List Message) → Opens ms → suffixes ms ≡ ms ∷ suffixes (tail ms)
  suffixes-Opens [] o = absurd o
  suffixes-Opens (m ∷ ms) o = suffixes_start m ms o

  cut_at-Compacted :
      (ms : List Message) (starts : List ℕ)
      → map (λ k. drop k ms) starts ≡ suffixes ms
      → Compacted ms (cut_at dumps ms limit starts)
  cut_at-Compacted ms [] e = record {
    suffix = here;
    cut = inl refl;
    small = inr (NoStart-tail ms (suffixes-nil ms (sym e)));
    longest = λ o. absurd (let q = e ∙ suffixes-Opens ms o in ground arith);
  }
  cut_at-Compacted ms (k ∷ cuts) e =
      let (o, p, q) = suffixes-cons ms (drop k ms) (map (λ j. drop j ms) cuts) e in
      let picked = pick-Picked (drop k ms) (tail (drop k ms)) o here refl in
      rw (first_fit-eq-pick, q)
        (record {
          suffix = IsSuffix-trans picked.suffix p;
          cut = inr picked.opens;
          small = picked.small;
          longest = λ os.
              let first = e ∙ suffixes-Opens ms os in
              let same : drop k ms ≡ ms = cc in
              subst
                (λ (x : List Message).
                  Longest (tail x) (pick (drop k ms) (suffixes (tail (drop k ms)))))
                same picked.longest;
        })

  segment_starts-suffixes :
      (ms : List Message) → map (λ k. drop k ms) (segment_starts ms) ≡ suffixes ms
  unfolding segment_starts
  segment_starts-suffixes ms =
      map-starts_from 0 ms (λ k. drop k ms) (λ j. ap (λ k. drop k ms) (omega arith))

  tail-IsSuffix :
      {s : List Message} (ms : List Message) → IsSuffix s (tail ms) → length s ≤ length ms
  tail-IsSuffix ms q = length-IsSuffix (IsSuffix-tail ms q)

  -- `compact` returns a suffix of the messages: all of them, or one that opens on a real user turn.
  -- It fits the limit, or no real user turn follows its first message; and if the messages opened on
  -- a real user turn, then no later cut at such a turn that fits keeps more of them.
  pub compact_lem : (ms : List Message) → Compacted ms (compact dumps ms limit)
  unfolding compact
  compact_lem [] = record { suffix = here; cut = inl refl; small = inr tt; longest = λ o. absurd o }
  compact_lem (m ∷ ms) = elim (Bool-cases (fits (m ∷ ms))) [
    | inl small ↦ rw small (record {
      suffix = here;
      cut = inl refl;
      small = inl (leb→le _ _ small);
      longest = λ o s q os f. tail-IsSuffix (m ∷ ms) q;
    })
    | inr over ↦
        rw over
          (cut_at-Compacted (m ∷ ms) (segment_starts (m ∷ ms)) (segment_starts-suffixes (m ∷ ms)))
  ]
