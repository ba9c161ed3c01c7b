-- ===== src/Caps.antt =====
-- The capability masks of src/dpa.h and src/dpa_ep.c, one Boolean for each bit that the provider
-- knows and `other_bits` for any bit besides.
use libfabric_provider_dpa.Prelude.{Bool, true, false, not, ◌&&◌, ◌||◌, if◌then◌else◌}

pub record Caps : Type 0 where
  pub msg : Bool
  pub recv : Bool
  pub send : Bool
  pub rma : Bool
  pub read : Bool
  pub write : Bool
  pub remote_read : Bool
  pub remote_write : Bool
  pub other_bits : Bool

abbrev pub no_caps : Caps
no_caps = record {
  msg = false;
  recv = false;
  send = false;
  rma = false;
  read = false;
  write = false;
  remote_read = false;
  remote_write = false;
  other_bits = false;
}

-- DPA_EP_MSG_CAP
abbrev pub ep_msg_cap : Caps
ep_msg_cap = record {
  msg = true;
  recv = true;
  send = true;
  rma = true;
  read = true;
  write = true;
  remote_read = true;
  remote_write = true;
  other_bits = false;
}

-- DPA_EP_RDM_CAP, which is DPA_RMA_CAP
abbrev pub ep_rdm_cap : Caps
ep_rdm_cap = record ep_msg_cap { msg = false; recv = false; send = false }

-- `(b | a) == b`, which is also `(a & b) == a`
unfoldable pub includes : Caps → Caps → Bool
includes b a =
    (b.other_bits || not a.other_bits)
    && (b.msg || not a.msg)
    && (b.recv || not a.recv)
    && (b.send || not a.send)
    && (b.rma || not a.rma)
    && (b.read || not a.read)
    && (b.write || not a.write)
    && (b.remote_read || not a.remote_read)
    && (b.remote_write || not a.remote_write)

unfoldable pub is_zero : Caps → Bool
is_zero a = not (
    a.msg || a.recv || a.send || a.rma || a.read || a.write || a.remote_read || a.remote_write
    || a.other_bits)

-- `caps |= DPA_MSG_CAP` where FI_MSG stands alone
abbrev pub with_msg : Caps → Caps
with_msg a = if a.msg && not a.recv && not a.send then record a { recv = true; send = true } else a

-- `caps |= DPA_RMA_CAP` where FI_RMA stands alone
abbrev pub with_rma : Caps → Caps
with_rma a =
    if a.rma && not a.read && not a.write && not a.remote_read && not a.remote_write
    then record a { read = true; write = true; remote_read = true; remote_write = true }
    else a

unfoldable pub check_ep_caps : Caps → Caps
unfolding includes
check_ep_caps a = if includes ep_msg_cap a then with_rma (with_msg a) else no_caps
