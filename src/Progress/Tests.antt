-- ===== src/Progress/Tests.antt =====
-- A send of two vectors is refused.
use libfabric_provider_dpa.Prelude.{ℕ, ◌≡◌, refl, Option, some}
use libfabric_provider_dpa.Fabric.{err, inval}
use libfabric_provider_dpa.Ring.{Link, Buffer}
use libfabric_provider_dpa.Msg.{Ep}
use libfabric_provider_dpa.Msg.Vectors.{request_of}
use libfabric_provider_dpa.Progress.{dpa_sendv}

two_vectors :
    (iov : Option (ℕ × Buffer)) (ep : Ep) (l : Link)
    → dpa_sendv iov 2 7 ep l ≡ some (err inval, ep, l)
unfolding dpa_sendv request_of
two_vectors iov ep l = refl
