-- ===== src/Telemetry.antt =====
-- internal/telemetry/sample.go: a sample of the GPU, and whose demand it shows. Go's maps are association
-- lists with no key twice. No float is NaN. What only reports read is left out: the demand by engine type
-- and the heaviest processes.
use benchwarmer.Prelude.{
  ℕ, ◌+◌, ◌-◌, ◌%◌, ◌^◌, ltb, max, ◌==◌, Bool, not, List, [], ◌∷◌, ◌++◌, map, any, Option, none,
  some, String, str_eq, if◌then◌else◌,
}
use benchwarmer.Platform.{Platform}

module _ (P : Platform) where
  open P use {Float, float_lt, float_add, float_sub, of_int}

  pub record Engine : Type 0 where
    pub key : String
    pub util_pct : Float

  pub record ProcGpu : Type 0 where
    pub pid : ℕ
    pub engine_util : List (String × Float)
    pub engine_by_key : List (String × Float)
    pub dedicated_bytes : ℕ

  pub record Sample : Type 0 where
    pub dedicated_total_bytes : ℕ
    pub dedicated_used_bytes : ℕ
    pub temperature_c : Option Float
    pub engines : List Engine
    pub processes : List ProcGpu
    pub complete : Bool

  pub record Demand : Type 0 where
    pub total_util_pct : Float
    pub own_util_pct : Float
    pub external_util_pct : Float
    pub own_dedicated_bytes : ℕ
    pub external_dedicated_bytes : ℕ
    pub free_dedicated_bytes : ℕ

  abbrev pub float_max : Float → Float → Float
  float_max a b = if float_lt a b then b else a

  unfoldable pub max_of : List (String × Float) → Float
  max_of [] = of_int 0
  max_of ((k, v) ∷ m) = float_max (max_of m) v

  -- The order in which the map is run through does not matter.
  unfoldable pub max_util : ProcGpu → Float
  unfolding max_of
  max_util p = max_of p.engine_util

  abbrev pub is_own : List ℕ → ℕ → Bool
  is_own own pid = any (λ q. q == pid) own

  unfoldable pub clamp_pct : Float → Float
  clamp_pct v =
      if float_lt v (of_int 0) then of_int 0 else if float_lt (of_int 100) v then of_int 100 else v

  unfoldable pub util_by_key : String → List (String × Float) → Option Float
  util_by_key k [] = none
  util_by_key k ((j, v) ∷ m) = if str_eq j k then some v else util_by_key k m

  abbrev add_util : Float → Option Float → Float
  add_util a none = a
  add_util a (some v) = float_add a v

  -- The sums of an engine over the processes, in their order
  unfoldable pub engine_sums : List ℕ → String → List ProcGpu → Float × Float → Float × Float
  unfolding util_by_key
  engine_sums own k [] s = s
  engine_sums own k (p ∷ ps) (total, mine) =
      let v = util_by_key k p.engine_by_key in
      engine_sums own k ps (add_util total v, if is_own own p.pid then add_util mine v else mine)

  unfoldable pub process_keys : List ProcGpu → List String
  process_keys [] = []
  process_keys (p ∷ ps) = map (λ (e : String × Float). e.0) p.engine_by_key ++ process_keys ps

  -- A key that stands twice changes no maximum.
  abbrev engine_keys : Sample → List String
  engine_keys s = map (λ (e : Engine). e.key) s.engines ++ process_keys s.processes

  -- The figures of one engine; of two readings of one key the last counts.
  unfoldable pub last_reading : String → List Engine → Option Float
  last_reading k [] = none
  last_reading k (e ∷ es) = elim (last_reading k es) [
    | some v ↦ some v
    | none ↦ if str_eq e.key k then some e.util_pct else none
  ]

  abbrev or_zero : Option Float → Float
  or_zero none = of_int 0
  or_zero (some v) = v

  pub record Utils : Type 0 where
    pub total : Float
    pub own : Float
    pub external : Float

  abbrev utils_of : List ℕ → Sample → String → Utils
  utils_of own s k =
      let sums = engine_sums own k s.processes (of_int 0, of_int 0) in
      let unattributed = clamp_pct (or_zero (last_reading k s.engines)) in
      elim s.processes [
        | [] ↦ record { total = unattributed; own = clamp_pct (of_int 0); external = unattributed }
        | ◌∷◌ _ _ ↦ record {
          total = clamp_pct sums.0;
          own = clamp_pct sums.1;
          external = clamp_pct (float_sub sums.0 sums.1);
        }
      ]

  unfoldable pub busiest : List ℕ → Sample → List String → Utils
  unfolding clamp_pct engine_sums last_reading
  busiest own s [] = record { total = of_int 0; own = of_int 0; external = of_int 0 }
  busiest own s (k ∷ ks) =
      let u = utils_of own s k in
      let b = busiest own s ks in
      record {
        total = float_max b.total u.total;
        own = float_max b.own u.own;
        external = float_max b.external u.external;
      }

  -- The bytes of the processes for which the test holds, as an unsigned word of 64 bits
  unfoldable pub sum_bytes : (ℕ → Bool) → List ProcGpu → ℕ
  sum_bytes test [] = 0
  sum_bytes test (p ∷ ps) =
      let rest = sum_bytes test ps in
      if test p.pid then (p.dedicated_bytes + rest) % 2 ^ 64 else rest

  abbrev pub external_bytes : Sample → List ProcGpu → ℕ → ℕ → ℕ
  external_bytes s [] own ext = s.dedicated_used_bytes
  external_bytes s (p ∷ ps) own ext =
      if ltb own s.dedicated_used_bytes then max ext (s.dedicated_used_bytes - own) else ext

  unfoldable pub split : Sample → List ℕ → Demand
  unfolding busiest sum_bytes process_keys
  split s own =
      let u = busiest own s (engine_keys s) in
      let own_bytes = sum_bytes (is_own own) s.processes in
      record {
        total_util_pct = u.total;
        own_util_pct = u.own;
        external_util_pct = u.external;
        own_dedicated_bytes = own_bytes;
        external_dedicated_bytes =
            external_bytes s s.processes own_bytes
              (sum_bytes (λ pid. not (is_own own pid)) s.processes);
        free_dedicated_bytes = s.dedicated_total_bytes - s.dedicated_used_bytes;
      }
