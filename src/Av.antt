-- ===== src/Av.antt =====
-- src/dpa_av.c, src/dpa_av.h and src/array.h: address vectors, and the growing array that holds the
-- table of one. What an address in memory holds is the parameter `deref`, as the map form of a
-- vector hands out pointers.
pub mod Table
pub mod Lookup
pub mod Inserts
mod Tests
use libfabric_provider_dpa.Prelude.{
  ℕ, zero, suc, ◌+◌, ◌-◌, ◌*◌, Bool, true, false, ◌&&◌, List, [], ◌∷◌, Option, none, some, ltb, leb,
  ◌==◌, if◌then◌else◌, length,
}
use libfabric_provider_dpa.Fabric.{Ret, ok, err, inval, no_mem}

-- `dpa_addr_t`
pub record Addr : Type 0 where
  pub node_id : ℕ
  pub connect_id : ℕ

-- The header of `array`; `allocated`, the bytes of its block behind the header, and `address`, that
-- of its first element.
pub record Array : Type 0 where
  pub address : ℕ
  pub value_size : ℕ
  pub array_count : ℕ
  pub allocated : ℕ

-- `p` is where the block that `malloc` gives has its elements.
unfoldable pub array_create : ℕ → ℕ → ℕ → Array
array_create p n size = record {
  address = p;
  value_size = size;
  array_count = n;
  allocated = size * n;
}

-- `array_request_size`; `realloc` says where the block is then, none if there is no memory. The
-- source multiplies by `sizeof(arr->value_size)`, which is 8.
unfoldable pub array_request_size : ℕ → Option ℕ → Array → Option Array
array_request_size n realloc a =
    let newcount = 2 * a.array_count + n in
    if leb n a.array_count then some a else elim realloc [
      | none ↦ none
      | some p ↦ some (record a { address = p; allocated = newcount * 8 })
    ]

-- `dpa_fid_av`: `is_table` is `type == FI_AV_TABLE`; `entries` are the first elements of the table.
pub record Av : Type 0 where
  pub is_table : Bool
  pub block : Array
  pub entries : List Addr
  pub last : ℕ

-- sizeof(dpa_addr_t)
abbrev pub addr_size : ℕ
addr_size = 8

-- `dpa_av_open` with the type FI_AV_TABLE. It leaves `type` at 0, which is no table.
unfoldable pub dpa_av_open : ℕ → ℕ → Av
unfolding array_create
dpa_av_open p count = record {
  is_table = false;
  block = array_create p count addr_size;
  entries = [];
  last = 0;
}

unfoldable pub check_table_size : ℕ → Option ℕ → Av → Option Av
unfolding array_request_size
check_table_size count realloc av = elim (array_request_size (av.last + count) realloc av.block) [
  | none ↦ none
  | some b ↦ some (record av { block = b })
]

-- `_get_fi_addr`
unfoldable pub get_fi_addr : Av → ℕ → ℕ
get_fi_addr av i = if av.is_table then i else av.block.address + i * addr_size

abbrev pub fi_addrs : Av → ℕ → List Addr → List ℕ
fi_addrs av i [] = []
fi_addrs av i (a ∷ addrs) = get_fi_addr av i ∷ fi_addrs av (suc i) addrs

-- `table[i] = a` for each address, from `last` on.
abbrev pub store_entries : List Addr → ℕ → List Addr → List Addr
store_entries old zero addrs = addrs
store_entries [] (suc i) addrs = addrs
store_entries (x ∷ old) (suc i) addrs = x ∷ store_entries old i addrs

unfoldable pub dpa_av_insert : List Addr → Option ℕ → Av → Ret × List ℕ × Av
unfolding check_table_size get_fi_addr
dpa_av_insert addrs realloc av = elim (check_table_size (length addrs) realloc av) [
  | none ↦ (err no_mem, [], av)
  | some av1 ↦ (
    ok (length addrs),
    fi_addrs av1 av1.last addrs,
    record av1 {
      entries = store_entries av1.entries av1.last addrs;
      last = av1.last + length addrs;
    },
  )
]

abbrev pub entry_or : List Addr → ℕ → Addr → Addr
entry_or [] i d = d
entry_or (a ∷ addrs) zero d = a
entry_or (a ∷ addrs) (suc i) d = entry_or addrs i d

-- `dpa_av_lookup` with pointers that are set and room for the whole address; an element of the
-- table behind the last is what memory holds there.
unfoldable pub dpa_av_lookup : (ℕ → Addr) → ℕ → Av → Ret × Option Addr
dpa_av_lookup deref fi_addr av =
    if av.is_table
    then if ltb av.last fi_addr then (err inval, none) else (
      ok 0,
      some (entry_or av.entries fi_addr (deref (av.block.address + fi_addr * addr_size))),
    )
    else (ok 0, some (deref fi_addr))

abbrev addr_eq : Addr → Addr → Bool
addr_eq a b = (a.node_id == b.node_id) && (a.connect_id == b.connect_id)

abbrev pub find_loop : Av → Addr → ℕ → List Addr → Option ℕ
find_loop av addr i [] = none
find_loop av addr i (a ∷ addrs) =
    let rest = find_loop av addr (suc i) addrs in
    if addr_eq a addr then some (get_fi_addr av i) else rest

-- `lookup_fi_addr`: none for FI_ADDR_NOTAVAIL.
unfoldable pub lookup_fi_addr : Addr → Av → Option ℕ
unfolding get_fi_addr
lookup_fi_addr addr av = find_loop av addr 0 av.entries
