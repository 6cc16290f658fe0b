-- ===== src/Proxy/Udp/Resolver.antt =====
-- DNS in the UDP relay of internal/proxy/socks5_udp.go: which datagrams are queries, and who resolves
-- them. The codec of miekg/dns and the two resolvers are parameters.
use gowebfilter.Base.{
  ℕ, ◌/◌, ◌%◌, Bool, false, ◌&&◌, ◌||◌, not, Option, none, some, List, [], ◌∷◌, ◌++◌, ltb, leb,
  ◌==◌, if◌then◌else◌, length, drop, Bytes, codes, to_lower, trim_suffix, is_empty,
}
use gowebfilter.Models.Policy.{Policy}
use gowebfilter.Proxy.Flow.{BlockEntry}
use gowebfilter.Proxy.Udp.{DnsAnswer, big_endian_16, dns_response_blocked, dns_should_filter}
use Prim.Native.Nat.{bit_and}

abbrev pub flags_of : Bytes → ℕ
flags_of payload = big_endian_16 (drop 2 payload)

-- QR, AA, TC, Z and RCODE are clear, the opcode is QUERY, and the four counts are those of a query.
abbrev pub counts_of : Bytes → Bool
counts_of payload =
    big_endian_16 (drop 4 payload) == 1
    && big_endian_16 (drop 6 payload) == 0
    && big_endian_16 (drop 8 payload) == 0
    && leb (big_endian_16 (drop 10 payload)) 2

-- Exactly one question, with a name, of class IN or ANY.
abbrev pub question_parses : Option (List (Bytes × ℕ)) → Bool
question_parses none = false
question_parses (some []) = false
question_parses (some ((name, class) ∷ [])) = not (is_empty name) && (class == 1 || class == 255)
question_parses (some (q ∷ r ∷ qs)) = false

-- `questions` gives the questions of a message that unpacks: their names and classes.
module _ (questions : Bytes → Option (List (Bytes × ℕ))) where
  unfoldable pub looks_like_dns_query : Bytes → Bool
  looks_like_dns_query payload =
      not (ltb (length payload) 17)
      && leb (length payload) 4096
      && bit_and (flags_of payload) 34383 == 0
      && flags_of payload / 2048 % 16 == 0
      && counts_of payload
      && question_parses (questions payload)

  unfoldable pub dns_question_name : Bytes → Bytes
  unfolding to_lower trim_suffix
  dns_question_name query = elim (questions query) [
    | none ↦ []
    | some qs ↦ elim qs [ [] ↦ [] | q ∷ rest ↦ to_lower (trim_suffix q.0 (codes ".")) ]
  ]

-- logDNSBlock
unfoldable pub dns_block_entry : Bytes → Policy → Bytes → BlockEntry
dns_block_entry name policy client_ip = record {
  domain = name;
  url = codes "dns://" ++ name;
  reason = codes "Domain blocked by DNS policy (" ++ (policy.doh.server ++ codes ")");
  component = codes "doh";
  policy = policy.name;
  client_ip = client_ip;
}

-- The answer, if there is one, and the rows that the log store has got.
pub record DnsResult : Type 0 where
  pub response : Option Bytes
  pub blocks : List BlockEntry

-- `unpack` is Unpack of an answer; `forward_doh` and `forward_plain` are none on their failures, and
-- the latter joins host and port to the address of the resolver.
module _ (questions : Bytes → Option (List (Bytes × ℕ))) (unpack : Bytes → Option DnsAnswer)
    (forward_doh : Bytes → Bytes → Option Bytes)
    (forward_plain : Bytes → Bytes → ℕ → Option Bytes) where
  -- The answer of the policy's resolver, or of the plain one where that has none.
  abbrev pub answer_filtered : Option Bytes → Option Bytes → BlockEntry → DnsResult
  answer_filtered none plain entry = record { response = plain; blocks = [] }
  answer_filtered (some resp) plain entry = record {
    response = some resp;
    blocks = if dns_response_blocked (unpack resp) then entry ∷ [] else [];
  }

  -- resolveDNS, for the policy of the client.
  unfoldable pub resolve_dns : Option Policy → Bytes → Bytes → ℕ → Bytes → DnsResult
  unfolding dns_question_name dns_block_entry dns_response_blocked dns_should_filter
  resolve_dns none query host port client_ip = record {
    response = forward_plain query host port;
    blocks = [];
  }
  resolve_dns (some policy) query host port client_ip =
      let name = dns_question_name questions query in
      let plain = forward_plain query host port in
      if policy.doh.enabled && dns_should_filter name policy.doh
      then answer_filtered (forward_doh query policy.doh.server) plain
          (dns_block_entry name policy client_ip)
      else record { response = plain; blocks = [] }
