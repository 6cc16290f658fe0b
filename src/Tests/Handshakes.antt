-- ===== src/Tests/Handshakes.antt =====
-- The handshakes and a chunked body at concrete inputs.
use gowebfilter.Base.{
  ◌≡◌, refl, ◌≢◌, true, false, none, some, [], ◌∷◌, ◌++◌, drop, Bytes, codes, bytes_eq, has_byte,
}
use gowebfilter.Icap.Chunked.{bad_size, gathered, read_chunked_body, stopped}
use gowebfilter.Icap.Chunked.Bounds.{Gathers, IsBounded, read_chunked_body-Gathers}
use gowebfilter.Proxy.Socks.{Gate, Writes, closed, read_user_pass, serve_socks, tunnel}
use gowebfilter.Proxy.Socks.Laws.{
  IsAdmitted, connect_message, read_user_pass-message, serve_socks-IsAdmitted, serve_socks-connect,
  user_pass_message,
}
use gowebfilter.Proxy.Socks4.{serve_socks4}
use gowebfilter.Proxy.Socks4.Laws.{IsRefused, serve_socks4-IsRefused, serve_socks4-named}

abbrev gate : Gate
gate = record {
  required = true;
  authorize = λ user password conn authed. (bytes_eq user (codes "ada"), conn ∷ authed);
}

abbrev all_writes : Writes
all_writes = record { selection_sent = true; status_sent = true }

abbrev client_hello : Bytes
client_hello =
    0x05 ∷ 0x01 ∷ 0x02 ∷ []
    ++ (user_pass_message (codes "ada") (codes "pw")
        ++ connect_message (λ s. s) (codes "one.example") 1 187 [])

offers : has_byte 0x02 (0x02 ∷ []) ≡ true
unfolding has_byte
offers = refl

accepts : gate.authorize (codes "ada") (codes "pw") 7 [] ≡ (true, 7 ∷ [])
unfolding bytes_eq
accepts = refl

goes_on : (serve_socks (λ s. s) (some gate) all_writes 7 [] client_hello).ending ≢ closed
goes_on =
    rw
      (serve_socks-connect (λ s. s) gate 7 [] (7 ∷ []) (0x02 ∷ []) (codes "ada") (codes "pw")
        (codes "one.example") 1 187 [] refl offers accepts)
      (λ e. cc)

serve_socks-IsAdmitted_example : IsAdmitted gate 7 [] (drop 1 client_hello)
serve_socks-IsAdmitted_example =
    serve_socks-IsAdmitted (λ s. s) gate all_writes 7 [] client_hello refl goes_on

serve_socks-connect_example :
    serve_socks (λ s. s) (some gate) all_writes 7 [] client_hello ≡ record {
      written = 0x05 ∷ 0x02 ∷ 0x01 ∷ 0x00 ∷ [];
      ending = tunnel (codes "one.example") 443 [];
      authed = 7 ∷ [];
    }
serve_socks-connect_example =
    serve_socks-connect (λ s. s) gate 7 [] (7 ∷ []) (0x02 ∷ []) (codes "ada") (codes "pw")
      (codes "one.example") 1 187 [] refl offers accepts

read_user_pass-message_example :
    read_user_pass (user_pass_message (codes "ada") (codes "pw") ++ 0x05 ∷ [])
    ≡ some ((codes "ada", codes "pw"), 0x05 ∷ [])
read_user_pass-message_example = read_user_pass-message (codes "ada") (codes "pw") (0x05 ∷ [])

abbrev socks4_hello : Bytes
socks4_hello =
    0x04 ∷ 0x01 ∷ 1 ∷ 187 ∷ 0 ∷ 0 ∷ 0 ∷ 1 ∷ (codes "ada" ++ (0 ∷ (codes "one.example" ++ 0 ∷ [])))

serve_socks4-IsRefused_example :
    IsRefused (λ s. s) [] (serve_socks4 (λ s. s) (some gate) 7 [] socks4_hello)
serve_socks4-IsRefused_example = serve_socks4-IsRefused (λ s. s) gate 7 [] socks4_hello refl

serve_socks4-named_example :
    serve_socks4
      (λ s. s)
      none
      7
      []
      (0x04
        ∷ 0x01
        ∷ 1
        ∷ 187
        ∷ 0
        ∷ 0
        ∷ 0
        ∷ 1
        ∷ (codes "ada" ++ (0 ∷ (codes "one.example" ++ 0 ∷ []))))
    ≡ record { written = []; ending = tunnel (codes "one.example") 443 []; authed = [] }
serve_socks4-named_example =
    serve_socks4-named (λ s. s) 7 [] 1 187 1 (codes "ada") (codes "one.example") [] refl
      (refl, (refl, (refl, tt)))
      (refl, (refl, (refl, (refl, (refl, (refl, (refl, (refl, (refl, (refl, (refl, tt)))))))))))

read_chunked_body-Gathers_example :
    Gathers 2 (IsBounded 2) (read_chunked_body 2 (codes "3\r\nabc\r\n0\r\n\r\n"))
read_chunked_body-Gathers_example = read_chunked_body-Gathers 2 (codes "3\r\nabc\r\n0\r\n\r\n")

-- The body is cut to the limit, and the rest of its chunk is taken off the connection.
cut_body :
    read_chunked_body 2 (codes "3\r\nabc\r\n0\r\n\r\n")
    ≡ gathered (record { bytes = codes "ab"; ieof = false; truncated = true }) []
unfolding read_chunked_body
cut_body = refl

-- On an error what was read before it is given, cut to the limit.
cut_off_body :
    read_chunked_body 2 (codes "3\r\nabc\r\nzz\r\n")
    ≡ stopped bad_size (record { bytes = codes "ab"; ieof = false; truncated = true })
unfolding read_chunked_body
cut_off_body = refl
