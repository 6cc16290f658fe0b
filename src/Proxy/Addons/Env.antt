-- ===== src/Proxy/Addons/Env.antt =====
-- What the addons use and do not implement: the network library, the regexp engine, the execution
-- of the block template, base64 and the key derivation, with the state that they read. `lookup_mac`
-- is the neighbour table at the time of the request.
use gowebfilter.Base.{Bool, Option, Bytes}
use gowebfilter.Models.Schedule.{Time}
use gowebfilter.Net.{Net}
use gowebfilter.Proxy.Flow.{BlockPage}
use gowebfilter.Pwhash.{Derive}
use gowebfilter.State.Runtime.{Runtime}

pub record Env : Type 1 where
  pub net : Net
  pub regexp : Bytes → Option (Bytes → Bool)
  pub render : BlockPage → Bytes
  pub base64 : Bytes → Option Bytes
  pub derive : Derive
  pub lookup_mac : Option (Bytes → Bytes)
  pub now : Time
  pub runtime : Runtime
