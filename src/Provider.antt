-- ===== src/Provider.antt =====
-- src/dpa_fabric.c, src/dpa_env.h, and what they call to set the provider up and to end it:
-- `dpa_mr_init` and `dpa_mr_fini` of src/dpa_mr.c, `dpa_cm_init` of src/dpa_cm.c. A string is the
-- list of its characters' codes; `atoi` and `strcasecmp`, the latter as a test for equality, are the C library's.
pub mod Setup
pub mod Teardown
mod Tests
use libfabric_provider_dpa.Prelude.{
  ℕ, zero, suc, ◌+◌, ◌-◌, ◌*◌, ◌/◌, ◌%◌, ◌^◌, Bool, true, false, not, ◌&&◌, ◌||◌, List, [], ◌∷◌,
  ◌++◌, Option, none, some, leb, if◌then◌else◌,
}
use libfabric_provider_dpa.Fabric.{Ret, err, success, no_data}
use libfabric_provider_dpa.Hash.{HashMap, hash_create, hash_destroy}
use libfabric_provider_dpa.Mr.{Mr}
use libfabric_provider_dpa.Segments.{LocalSegment}
use libfabric_provider_dpa.Buffers.{Segment, Assign, CardSegments, dpa_cm_fini}

-- The constants that the environment may change. `dpa_segmid_t` and `dpa_adapterno_t` have 32 bits.
pub record Constants : Type 0 where
  pub local_adapter_no : ℕ
  pub mr_map_size : ℕ
  pub buffer_size : ℕ
  pub buffers_per_segment : ℕ
  pub min_msg_segmid : ℕ
  pub max_msg_segmid : ℕ
  pub max_concur_conn : ℕ

-- Their values where neither the compiler nor the environment sets them. MR_MAP_SIZE_DEFAULT is 251
-- and ADAPTERNO_DEFAULT 0.
abbrev pub defaults : Constants
defaults = record {
  local_adapter_no = 0;
  mr_map_size = 251;
  buffer_size = 65536;
  buffers_per_segment = 16;
  min_msg_segmid = 2147483648;
  max_msg_segmid = 2147484672;
  max_concur_conn = 32;
}

-- What `getenv` answers for the variable of each constant.
pub record Environment : Type 0 where
  pub adapter_var : Option (List ℕ)
  pub map_size_var : Option (List ℕ)
  pub buffer_size_var : Option (List ℕ)
  pub per_segment_var : Option (List ℕ)
  pub min_segmid_var : Option (List ℕ)
  pub max_segmid_var : Option (List ℕ)
  pub concur_conn_var : Option (List ℕ)

-- What DPAlib answers: whether DPAInitialize succeeds, and the node's number for an adapter.
pub record Library : Type 0 where
  pub initializes : Bool
  pub node_of : ℕ → Option ℕ

-- The globals of the provider: whether DPAlib is running, `localNodeId`, the constants, `mr_map`,
-- `assign_data.currentSegmentId` and `local_segments_info`; none where a pointer was never set.
pub record Provider : Type 0 where
  pub running : Bool
  pub local_node : ℕ
  pub constants : Constants
  pub mr_map : Option (HashMap Mr)
  pub current_id : ℕ
  pub segments : Option (List Segment)

abbrev pub first_char : List ℕ → ℕ
first_char [] = 0
first_char (c ∷ s) = c

-- ALIGNED_BUFFER_SIZE and NUM_SEGMENTS.
unfoldable pub aligned_buffer_size : Constants → ℕ
aligned_buffer_size c = c.buffer_size / 8 * 8

unfoldable pub num_segments : Constants → ℕ
num_segments c = (c.max_msg_segmid + 2 ^ 32 - c.min_msg_segmid) % 2 ^ 32

abbrev pub assign_of : Provider → Assign
assign_of p = record {
  buffers_per_segment = p.constants.buffers_per_segment;
  aligned_size = aligned_buffer_size p.constants;
  current_id = p.current_id;
}

module _ (atoi : List ℕ → ℕ) (strcasecmp : List ℕ → List ℕ → Bool) where
  -- ENV_OVERRIDE_INT, without DISABLE_ENV_OVERRIDE. The number is cast to `unsigned`; the words
  -- are yes, on, no and off.
  unfoldable pub env_override_int : Option (List ℕ) → ℕ → ℕ
  env_override_int none var = var
  env_override_int (some s) var =
      let is_digit = leb 48 (first_char s) && leb (first_char s) 57 in
      let var1 = if is_digit then atoi s % 2 ^ 32 else var in
      let is_yes = strcasecmp s (121 ∷ 101 ∷ 115 ∷ []) || strcasecmp s (111 ∷ 110 ∷ []) in
      let is_no = strcasecmp s (110 ∷ 111 ∷ []) || strcasecmp s (111 ∷ 102 ∷ 102 ∷ []) in
      if is_no then 0 else if is_yes then 1 else var1

  unfoldable pub dpa_mr_init : Environment → Provider → Provider
  unfolding env_override_int hash_create
  dpa_mr_init env p =
      let size = env_override_int env.map_size_var p.constants.mr_map_size in
      record p {
        constants = record p.constants { mr_map_size = size };
        mr_map = some (hash_create (λ mr. mr.segment_info.segment_id) size);
      }

  -- `dpa_cm_init`: the array has one element, `fresh`, which is what `malloc` left there.
  unfoldable pub dpa_cm_init : Environment → Segment → Provider → Provider
  unfolding env_override_int
  dpa_cm_init env fresh p =
      let c : Constants = record p.constants {
        buffer_size = env_override_int env.buffer_size_var p.constants.buffer_size;
        buffers_per_segment = env_override_int env.per_segment_var p.constants.buffers_per_segment;
        min_msg_segmid = env_override_int env.min_segmid_var p.constants.min_msg_segmid;
        max_msg_segmid = env_override_int env.max_segmid_var p.constants.max_msg_segmid;
        max_concur_conn = env_override_int env.concur_conn_var p.constants.max_concur_conn;
      } in
      record p { constants = c; current_id = c.min_msg_segmid; segments = some (fresh ∷ []) }

  -- FI_EXT_INI: whether the provider is returned, or NULL. `dpa_msg_init` does nothing.
  unfoldable pub fi_ext_ini : Library → Environment → Segment → Provider → Bool × Provider
  unfolding env_override_int dpa_mr_init dpa_cm_init
  fi_ext_ini lib env fresh p =
      let adapter = env_override_int env.adapter_var p.constants.local_adapter_no in
      let p1 : Provider = record p {
        running = true;
        constants = record p.constants { local_adapter_no = adapter };
      } in
      if not lib.initializes then (false, p) else elim (lib.node_of adapter) [
        | none ↦ (false, p1)
        | some node ↦
            (true, dpa_cm_init env fresh (dpa_mr_init env (record p1 { local_node = node })))
      ]

-- `dpa_mr_fini`: the values in the entries that are freed, that is, the copies that `hash_put` has
-- made; the regions and their segments are left alone. None where `mr_map` was never set.
unfoldable pub dpa_mr_fini : Provider → Option (List Mr)
unfolding hash_destroy
dpa_mr_fini p = elim p.mr_map [ none ↦ none | some map ↦ some (hash_destroy map) ]

-- `fi_dpa_fini`: the copies in the entries of the map that are freed, and the segments of buffers that
-- are given back. The map itself and the array are freed too; the pointers keep their values.
unfoldable pub fi_dpa_fini :
    CardSegments → Provider → Option (List Mr × List LocalSegment × Provider)
unfolding dpa_mr_fini dpa_cm_fini
fi_dpa_fini card p = elim (dpa_mr_fini p) [
  | none ↦ none
  | some regions ↦ elim p.segments [
    | none ↦ none
    | some segments ↦ some (regions, dpa_cm_fini card segments, record p { running = false })
  ]
]

-- `dpa_fabric`, with the name of the attributes, none for no attributes, and whether it is
-- DPA_FABRIC_NAME.
unfoldable pub dpa_fabric : Option (List ℕ) → (List ℕ → Bool) → Ret
dpa_fabric none is_name = err no_data
dpa_fabric (some name) is_name = if is_name name then success else err no_data
