-- ===== src/Gateway/Running/Listening.antt =====
-- Which ports a run of internal/gateway/gateway.go clears and listens on.
use fbs_interlock_gateway.Prelude.{
  Bool-cases, select, All, ℤ, ok, err, ◌≡◌, refl, ◌⊎◌, inl, inr, Bool, List, [], ◌∷◌, pos, ◌≤ℤ◌,
  ltb_ℤ, Result, false, not, ◌||◌, arith,
}
use fbs_interlock_gateway.Text.{Text, is_empty}
use fbs_interlock_gateway.Config.{
  min_tool_port, max_tool_port, Tool, Config, Check, validate_enabled_tools,
}
use fbs_interlock_gateway.Config.Protocol.{IsValidTool}
use fbs_interlock_gateway.Config.Validation.{DistinctPorts}
use fbs_interlock_gateway.Config.Enabled.{is_enabled, validate_enabled_tools_iff}
use fbs_interlock_gateway.Shelly.Setup.{SetupError, ClientSetup}
use fbs_interlock_gateway.Ports.{command_failed, kill_port}
use fbs_interlock_gateway.Gateway.Running.{
  shutdown, restart, server_stopped, server_failed, Launch, administers, clears, listens,
  tool_launches, Ending, RunError, no_client, invalid_tools, launches, ended, run_checked,
  run_client, run_gateway,
}

-- The tools whose servers listen.
abbrev pub listening : List Launch → List Tool
listening [] = []
listening (administers addr ∷ ls) = listening ls
listening (clears port r ∷ ls) = listening ls
listening (listens t ∷ ls) = t ∷ listening ls

-- The command that clears its port ran just before each server, and it may have failed.
abbrev pub Cleared : List Launch → Type 0
Cleared [] = Unit
Cleared (administers addr ∷ ls) = Cleared ls
Cleared (listens t ∷ ls) = ⊥
Cleared (clears port r ∷ []) = ⊥
Cleared (clears port r ∷ listens t ∷ ls) =
    (port ≡ t.port) × ((r ≡ ok tt) ⊎ (r ≡ err (command_failed port))) × Cleared ls
Cleared (clears port r ∷ clears port' r' ∷ ls) = ⊥
Cleared (clears port r ∷ administers addr ∷ ls) = ⊥

listening-tool_launches :
    (fails : ℤ → Bool) (ts : List Tool) → listening (tool_launches fails ts) ≡ select is_enabled ts
unfolding tool_launches
listening-tool_launches fails [] = refl
listening-tool_launches fails (t ∷ ts) = elim (Bool-cases t.enabled) [
  | inl on ↦ simp (on, listening-tool_launches fails ts)
  | inr off ↦ simp off (listening-tool_launches fails ts)
]

port_in_range :
    (port : ℤ)
    → min_tool_port ≤ℤ port
    → port ≤ℤ max_tool_port
    → not (ltb_ℤ (pos 0) port) || ltb_ℤ (pos 65535) port ≡ false
port_in_range port low high = ground (arith, low, high)

kill_port-valid :
    (fails : ℤ → Bool) (t : Tool)
    → IsValidTool t
    → (kill_port fails t.port ≡ ok tt) ⊎ (kill_port fails t.port ≡ err (command_failed t.port))
unfolding kill_port
kill_port-valid fails t v =
    let inside = port_in_range t.port v.port_low v.port_high in
    elim (Bool-cases (fails t.port)) [
      | inl failed ↦ inr (simp (inside, failed))
      | inr done ↦ inl (simp (inside, done))
    ]

Cleared-tool_launches :
    (fails : ℤ → Bool) (ts : List Tool)
    → All IsValidTool (select is_enabled ts)
    → Cleared (tool_launches fails ts)
unfolding tool_launches
Cleared-tool_launches fails [] h = tt
Cleared-tool_launches fails (t ∷ ts) h = elim (Bool-cases t.enabled) [
  | inl on ↦
      let valid : IsValidTool t × All IsValidTool (select is_enabled ts) = simp on at h in
      simp on (refl, kill_port-valid fails t valid.0, Cleared-tool_launches fails ts valid.1)
  | inr off ↦ simp off (Cleared-tool_launches fails ts (simp off at h))
]

Cleared-launches :
    (fails : ℤ → Bool) (addr : Text) (ts : List Tool)
    → All IsValidTool (select is_enabled ts)
    → Cleared (launches fails addr ts) × (listening (launches fails addr ts) ≡ select is_enabled ts)
unfolding launches
Cleared-launches fails addr ts h = elim (Bool-cases (is_empty addr)) [
  | inl none_wanted ↦
      simp none_wanted (Cleared-tool_launches fails ts h, listening-tool_launches fails ts)
  | inr wanted ↦ simp wanted (Cleared-tool_launches fails ts h, listening-tool_launches fails ts)
]

-- What a run that starts servers starts: those of the enabled tools, which are valid.
pub record Serves (cfg : Config) (ls : List Launch) : Type 0 where
  pub tools : listening ls ≡ select is_enabled cfg.tools
  pub tools_valid : All IsValidTool (listening ls)
  pub ports_distinct : DistinctPorts (listening ls)
  pub cleared : Cleared ls

-- No error after a shutdown or a restart, and otherwise that of the server that stopped.
abbrev pub Returns : {E : Type 0} → Ending E → Result (RunError E) (Unit {0}) → Type 0
Returns shutdown r = r ≡ ok tt
Returns restart r = r ≡ ok tt
Returns (server_stopped e) r = r ≡ err (server_failed e)

Returns-ended : {E : Type 0} (ending : Ending E) → Returns ending (ended ending)
unfolding ended
Returns-ended shutdown = refl
Returns-ended restart = refl
Returns-ended (server_stopped e) = refl

module _ {E : Type 0} (fails : ℤ → Bool) (addr : Text) (cfg : Config) (ending : Ending E) where
  -- Nothing was started after an error of the check, or the enabled tools are served.
  abbrev pub StartsOr : Result (RunError E) (Unit {0}) × List Launch → Type 0
  StartsOr r =
      ((e : RunError E) × (r.0 ≡ err e) × (r.1 ≡ [])) ⊎ (Returns ending r.0 × Serves cfg r.1)

  launches-Serves : validate_enabled_tools cfg ≡ ok tt → Serves cfg (launches fails addr cfg.tools)
  launches-Serves h =
      let v = (validate_enabled_tools_iff cfg).0 h in
      let (clear, same) = Cleared-launches fails addr cfg.tools v.tools_valid in
      record {
        tools = same;
        tools_valid = rw same v.tools_valid;
        ports_distinct = rw same v.ports_distinct;
        cleared = clear;
      }

  run_checked-cases :
      (c : Check) → validate_enabled_tools cfg ≡ c → StartsOr (run_checked fails addr cfg ending c)
  unfolding run_checked
  run_checked-cases (err e) h = inl (invalid_tools e, refl, refl)
  run_checked-cases (ok _) h = inr (Returns-ended ending, launches-Serves h)

  -- A run fails before it starts anything, or it starts one server for each enabled tool and for no
  -- other, all valid and on different ports, each right after the command that clears its port was
  -- run, be it with success or not; it then returns the error of a server that stopped, and none after a
  -- shutdown or a restart.
  pub run_gateway_outcome :
      (client : Result SetupError ClientSetup) → StartsOr (run_gateway fails addr cfg ending client)
  unfolding run_gateway run_client
  run_gateway_outcome (err e) = inl (no_client e, refl, refl)
  run_gateway_outcome (ok client) = run_checked-cases (validate_enabled_tools cfg) refl

  -- With enabled tools that pass the check only a missing client prevents the start.
  pub run_gateway-accepted :
      (client : Result SetupError ClientSetup)
      → validate_enabled_tools cfg ≡ ok tt
      → ((e : SetupError) × (run_gateway fails addr cfg ending client ≡ (err (no_client e), [])))
        ⊎ (Returns ending (run_gateway fails addr cfg ending client).0
            × Serves cfg (run_gateway fails addr cfg ending client).1)
  unfolding run_gateway run_client run_checked
  run_gateway-accepted (err e) h = inl (e, refl)
  run_gateway-accepted (ok client) h = inr (rw h (Returns-ended ending, launches-Serves h))
