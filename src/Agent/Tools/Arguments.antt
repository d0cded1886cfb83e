-- ===== src/Agent/Tools/Arguments.antt =====
-- The arguments that the guest of a tool gets, described from the model's input.
use sigil_pi.Prelude.{
  ◌≡◌, refl, sym, subst, arith, String, true, false, none, some, List, [], ◌∷◌, ◌⊎◌, inl, inr, ℕ,
  any, map, str_eq, Each, Each-map, eq_iff, Bool-cases, Option-cases,
}
use sigil_pi.Prelude.Dict.{Dict, get}
use sigil_pi.Agent.Json.{Json}
use sigil_pi.Agent.Tools.{Tool, Host, raw_args, bad_path, is_control, in_sandbox}

module _ {W : Type 0} (host : Host W) (tool : Tool) (sandbox : String) (input : Dict Json) where
  -- The model's argument of a name, resolved in the sandbox and without a control character where it is
  -- a path, and as it is otherwise.
  pub record IsArg (name : String) (x : List ℕ) : Type 0 where
    pub value : Json
    pub is_given : get name input ≡ some value
    pub is_resolved :
        ((any (str_eq name) tool.path_args ≡ true)
          × (x ≡ host.join_path sandbox (host.str_of value))
          × (any is_control (host.str_of value) ≡ false))
        ⊎ ((any (str_eq name) tool.path_args ≡ false) × (x ≡ host.str_of value))

  -- One argument for each name, in this order.
  abbrev pub AreArgs : List String → List (List ℕ) → Type 0
  AreArgs [] [] = Unit {0}
  AreArgs [] (x ∷ xs) = ⊥
  AreArgs (a ∷ as_) [] = ⊥
  AreArgs (a ∷ as_) (x ∷ xs) = IsArg a x × AreArgs as_ xs

  bad_path-none :
      (paths : List String) (raw : Dict (List ℕ)) (a : String) (v : List ℕ)
      → bad_path paths raw ≡ none
      → any (str_eq a) paths ≡ true
      → get a raw ≡ some v
      → any is_control v ≡ false
  bad_path-none [] raw a v fine h e = absurd (ground (arith, h))
  bad_path-none (p ∷ ps) raw a v fine h e =
      ground (arith, fine, h, e, eq_iff a p, bad_path-none ps raw a v)

  raw_args-cons :
      (n : String) (ns : List String) (raw : Dict (List ℕ))
      → raw_args host.str_of (n ∷ ns) input ≡ some raw
      → (u : Json) × (rest : Dict (List ℕ)) × (get n input ≡ some u)
        × (raw_args host.str_of ns input ≡ some rest)
        × (raw ≡ (n, host.str_of u) ∷ rest)
  raw_args-cons n ns raw e = elim (Option-cases (get n input)) [
    | inl missing ↦ absurd (ground (arith, e, missing))
    | inr (u, found) ↦ elim (Option-cases (raw_args host.str_of ns input)) [
      | inl missing ↦ absurd (ground (arith, e, found, missing))
      | inr (rest, more) ↦ (u, rest, found, more, ground (arith, e, found, more))
    ]
  ]

  get-raw_args :
      (names : List String) (raw : Dict (List ℕ)) (a : String) (v : Json)
      → raw_args host.str_of names input ≡ some raw
      → any (str_eq a) names ≡ true
      → get a input ≡ some v
      → get a raw ≡ some (host.str_of v)
  unfolding get
  get-raw_args [] raw a v e h given = absurd (ground (arith, h))
  get-raw_args (n ∷ ns) raw a v e h given =
      let (u, rest, found, more, same) = raw_args-cons n ns raw e in
      ground (arith, same, h, given, found, eq_iff a n, eq_iff n a, get-raw_args ns rest a v more)

  any_self : (xs : List String) → Each (λ a. any (str_eq a) xs ≡ true) xs
  any_self [] = tt
  any_self (x ∷ xs) =
      (ground (arith, eq_iff x x), Each-map xs (λ a h. ground (arith, h)) (any_self xs))

  -- A path holds no control character.
  abbrev PlainPaths : Type 0
  PlainPaths =
      (a : String) (v : Json)
      → any (str_eq a) tool.args ≡ true
      → get a input ≡ some v
      → any (str_eq a) tool.path_args ≡ true
      → any is_control (host.str_of v) ≡ false

  IsArg-in_sandbox :
      (a : String) (v : Json)
      → PlainPaths
      → any (str_eq a) tool.args ≡ true
      → get a input ≡ some v
      → IsArg a (in_sandbox (host.join_path sandbox) tool.path_args (a, host.str_of v))
  IsArg-in_sandbox a v plain inside given = record {
    value = v;
    is_given = given;
    is_resolved = elim (Bool-cases (any (str_eq a) tool.path_args)) [
      | inl path ↦ inl (path, rw path refl, plain a v inside given path)
      | inr free ↦ inr (free, rw free refl)
    ];
  }

  AreArgs-in_sandbox :
      (names : List String) (raw : Dict (List ℕ))
      → PlainPaths
      → Each (λ a. any (str_eq a) tool.args ≡ true) names
      → raw_args host.str_of names input ≡ some raw
      → AreArgs names (map (in_sandbox (host.join_path sandbox) tool.path_args) raw)
  AreArgs-in_sandbox [] [] plain inside e = tt
  AreArgs-in_sandbox [] (x ∷ raw) plain inside e = absurd (ground (arith, e))
  AreArgs-in_sandbox (n ∷ ns) raw plain (first, inside) e =
      let (u, rest, found, more, same) = raw_args-cons n ns raw e in
      subst (λ r. AreArgs (n ∷ ns) (map (in_sandbox (host.join_path sandbox) tool.path_args) r))
        (sym same)
        (IsArg-in_sandbox n u plain first found, AreArgs-in_sandbox ns rest plain inside more)

  -- Where every argument is given and no path has a control character, the arguments that are sent are
  -- those of the model.
  pub AreArgs-raw_args :
      (raw : Dict (List ℕ))
      → raw_args host.str_of tool.args input ≡ some raw
      → bad_path tool.path_args raw ≡ none
      → AreArgs tool.args (map (in_sandbox (host.join_path sandbox) tool.path_args) raw)
  AreArgs-raw_args raw e fine =
      AreArgs-in_sandbox tool.args raw
        (λ a v inside given path.
          bad_path-none tool.path_args raw a (host.str_of v) fine path
            (get-raw_args tool.args raw a v e inside given))
        (any_self tool.args) e
