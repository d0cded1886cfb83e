-- ===== src/Agent/Tools/Staged.antt =====
-- What a tool's dispatch runs: its guest with the tool's grants, and a second guest with none.
use Prim.Native.String.{◌++◌ as concat}
use sigil_pi.Prelude.{
  ℕ, ◌≡◌, refl, String, Option, none, some, List, [], ◌∷◌, ◌++◌, ◌⊎◌, inl, inr, ap, ◌∙◌,
  Option-cases,
}
use sigil_pi.Prelude.Dict.{Dict, get}
use sigil_pi.Agent.Json.{Json}
use sigil_pi.Agent.Forge.{Request, Forged, output, failure, timeout, raised, State, forge, Grants}
use sigil_pi.Agent.Forge.Audited.{IsAudited, forge-IsAudited}
use sigil_pi.Agent.Forge.Runs.{forge-RunsOnce, RunsOnce}
use sigil_pi.Agent.Tools.Wire.{wire}
use sigil_pi.Agent.Tools.Placeholders.{Config, granted}
use sigil_pi.Agent.Tools.Arguments.{AreArgs, AreArgs-raw_args}
use sigil_pi.Agent.Tools.{
  Tool, Host, Log, or_none, wire_args, bad_path, raw_args, fuel, shaped, with_grants, with_args,
  dispatch_tool, dispatch,
}

module _ {W : Type 0} (host : Host W) (config : Config) (session : String) where
  -- The request of the tool's own guest: its source, its grants, and on the wire the operator's
  -- arguments and then the model's.
  pub record IsToolRun (tool : Tool) (sandbox : String) (o : Option (Dict Json)) (r : Request)
      : Type 0 where
    pub grants : Grants
    pub model_input : Dict Json
    pub model_args : List (List ℕ)
    pub is_object : o ≡ some model_input
    pub are_args : AreArgs host tool sandbox model_input tool.args model_args
    pub granted_as : granted config sandbox tool.grants ≡ some grants
    pub given : r.grants ≡ or_none grants
    pub source : r.source ≡ host.read_source tool.source
    pub input : wire tool.len8 (tool.bound_args ++ model_args) ≡ some r.input

  -- The runs between two states: none, the tool's, or the tool's and a second without grants.
  abbrev pub Runs : Tool → String → Option (Dict Json) → State W → State W → Type 0
  Runs tool sandbox o s s' =
      (s'.calls ≡ s.calls)
      ⊎ ((r : Request) × IsToolRun tool sandbox o r
          × ((s'.calls ≡ s.calls ++ r ∷ [])
              ⊎ ((q : Request) × (q.grants ≡ none) × (s'.calls ≡ (s.calls ++ r ∷ []) ++ q ∷ []))))

  pub record IsStaged (tool : Tool) (sandbox : String) (o : Option (Dict Json)) (s s' : State W)
      : Type 0 where
    pub audited : IsAudited s'
    pub runs : Runs tool sandbox o s s'

  module _ (deadline : Option ℕ) (name : String) (tool : Tool) (sandbox : String)
      (o : Option (Dict Json)) where
    not_run : (s : State W) → IsAudited s → IsStaged tool sandbox o s s
    not_run s a = record { audited = a; runs = inl refl }

    -- A stage that was the last.
    IsStaged-once :
        (r : Request) (s : State W) (x : Forged × State W)
        → IsToolRun tool sandbox o r
        → IsAudited x.1
        → RunsOnce host.forging session "" r s x
        → IsStaged tool sandbox o s x.1
    IsStaged-once r s x run a (inl (late, e)) = record { audited = a; runs = inl e }
    IsStaged-once r s x run a (inr e) = record { audited = a; runs = inr (r, run, inl e) }

    shaped_next :
        (shape : String) (log : Log) (r : Request) (s : State W) (out : List ℕ) (s1 : State W)
        → IsToolRun tool sandbox o r
        → IsAudited s1
        → s1.calls ≡ s.calls ++ r ∷ []
        → IsStaged tool sandbox o s
            (shaped host config deadline session name (some shape) log (output out, s1)).2
    unfolding shaped
    shaped_next shape log r s out s1 run a e =
        let q : Request = record {
          source = host.composed shape;
          input = out;
          grants = none;
          fuel = fuel;
        } in
        record {
          audited = forge-IsAudited host.forging session deadline (concat "shape:" name) q s1 a;
          runs = elim (forge-RunsOnce host.forging session (concat "shape:" name) q deadline s1) [
            | inl (late, e') ↦ inr (r, run, inl (e' ∙ e))
            | inr e' ↦ inr (r, run, inr (q, refl, e' ∙ ap (λ cs. cs ++ q ∷ []) e))
          ];
        }

    shaped-IsStaged :
        (shape : Option String) (log : Log) (r : Request) (s : State W) (x : Forged × State W)
        → IsToolRun tool sandbox o r
        → IsAudited x.1
        → RunsOnce host.forging session "" r s x
        → IsStaged tool sandbox o s (shaped host config deadline session name shape log x).2
    unfolding shaped
    shaped-IsStaged (some shape) log r s (output out, s1) run a (inl (late, e)) = cc
    shaped-IsStaged (some shape) log r s (output out, s1) run a (inr e) =
        shaped_next shape log r s out s1 run a e
    shaped-IsStaged none log r s x run a h = IsStaged-once r s x run a h
    shaped-IsStaged (some shape) log r s (failure err, s1) run a h =
        IsStaged-once r s (failure err, s1) run a h
    shaped-IsStaged (some shape) log r s (timeout, s1) run a h =
        IsStaged-once r s (timeout, s1) run a h
    shaped-IsStaged (some shape) log r s (raised, s1) run a h =
        IsStaged-once r s (raised, s1) run a h

    with_grants-IsStaged :
        (obj : Dict Json) (args : List (List ℕ)) (input : List ℕ) (grants : Option Grants)
        (log : Log) (s : State W)
        → o ≡ some obj
        → AreArgs host tool sandbox obj tool.args args
        → wire tool.len8 (tool.bound_args ++ args) ≡ some input
        → granted config sandbox tool.grants ≡ grants
        → IsAudited s
        → IsStaged tool sandbox o s
            (with_grants host config deadline session name tool input grants log s).2
    unfolding with_grants
    with_grants-IsStaged obj args input none log s is_obj are_args sent resolved a = not_run s a
    with_grants-IsStaged obj args input (some g) log s is_obj are_args sent resolved a =
        let r : Request = record {
          source = host.read_source tool.source;
          input = input;
          grants = or_none g;
          fuel = fuel;
        } in
        shaped-IsStaged tool.shape (log ++ (name, or_none g) ∷ []) r s
          (forge host.forging deadline (some session) (concat "tool:" name) r s)
          (record {
            grants = g;
            model_input = obj;
            model_args = args;
            is_object = is_obj;
            are_args = are_args;
            granted_as = resolved;
            given = refl;
            source = refl;
            input = sent;
          })
          (forge-IsAudited host.forging session deadline (concat "tool:" name) r s a)
          (forge-RunsOnce host.forging session (concat "tool:" name) r deadline s)

    with_args-IsStaged :
        (obj : Dict Json) (raw : Dict (List ℕ)) (log : Log) (s : State W)
        → o ≡ some obj
        → raw_args host.str_of tool.args obj ≡ some raw
        → IsAudited s
        → IsStaged tool sandbox o s
            (with_args host config deadline session name tool sandbox raw log s).2
    unfolding with_args
    with_args-IsStaged obj raw log s is_obj is_raw a =
        elim (Option-cases (bad_path tool.path_args raw)) [
          | inr (bad, e) ↦ rw (e, with_args) (not_run s a)
          | inl fine ↦
              elim (Option-cases (wire tool.len8 (wire_args host config tool sandbox raw))) [
                | inl piped ↦ rw (fine, piped, with_args) (not_run s a)
                | inr (input, sent) ↦
                    rw (fine, sent, with_args)
                      (with_grants-IsStaged obj _ input (granted config sandbox tool.grants) log s
                        is_obj (AreArgs-raw_args host tool sandbox obj raw is_raw fine) sent refl a)
              ]
        ]

    dispatch_tool-IsStaged :
        (input : Option (Dict Json)) (log : Log) (s : State W)
        → o ≡ input
        → IsAudited s
        → IsStaged tool sandbox o s
            (dispatch_tool host config deadline session name tool sandbox input log s).2
    unfolding dispatch_tool
    dispatch_tool-IsStaged none log s is_input a = not_run s a
    dispatch_tool-IsStaged (some input) log s is_input a =
        elim (Option-cases (raw_args host.str_of tool.args input)) [
          | inl missing ↦ rw (missing, dispatch_tool) (not_run s a)
          | inr (raw, e) ↦ rw (e, dispatch_tool) (with_args-IsStaged input raw log s is_input e a)
        ]

  -- For a tool of the manifest, whatever input the model gives and however the guests end, from a state
  -- where every run was passed to the audit log and the forge lock is free: what runs is at most the
  -- tool's guest, with the tool's grants as they resolve, and on the wire the operator's bound arguments
  -- and then the model's own, each path resolved in the sandbox and without a control character; and
  -- after its output a second guest with no grants at all. Every run was passed to the audit log, and the
  -- lock is free.
  pub dispatch-IsStaged :
      (deadline : Option ℕ) (name : String) (tool : Tool) (sandbox : String) (manifest : Dict Tool)
      (input : Option (Dict Json)) (log : Log) (s : State W)
      → get name manifest ≡ some tool
      → IsAudited s
      → IsStaged tool sandbox input s
          (dispatch host config manifest deadline session name sandbox input log s).2
  unfolding dispatch
  dispatch-IsStaged deadline name tool sandbox manifest input log s known a =
      rw (known, dispatch)
        (dispatch_tool-IsStaged deadline name tool sandbox input input log s refl a)
