-- ===== src/Legacy/Endpoint/Tests.antt =====
-- parse_endpoint on concrete texts.
use dirty_net.Prelude.{
  ℕ, ◌≡◌, refl, true, none, some, List, [], ◌∷◌, ◌++◌, take, done, fault, arith, replicate,
  if◌then◌else◌,
}
use dirty_net.ByteOrder.{little, htons}
use dirty_net.Memory.{same_bytes, read_at}
use dirty_net.Text.{c_str}
use dirty_net.Text.Laws.{value_from}
use dirty_net.Text.FromChars.{from_chars, scan, is_digit, in_range}
use dirty_net.Posix.Ip.{ok}
use dirty_net.Legacy.Util.{index_of}
use dirty_net.Legacy.Ip.{Conversions, ipv4, parse_ip, ipv4_of_view, in_addr, in6_addr}
use dirty_net.Legacy.Ip.Laws.{reach}
use dirty_net.Legacy.Endpoint.{
  Endpoint, parse_endpoint, endpoint_of_views, endpoint_of_ip, find_last_of, replace_localhost,
  strip_brackets, localhost, endpoint_address, ip_string_of,
}
use dirty_net.Legacy.Endpoint.Brackets.{bracketed, parse_endpoint-bracketed}
use dirty_net.Legacy.Endpoint.Laws.{ip_part, parse_endpoint-fault, parse_endpoint-ok}

-- "1.2.3.4"
abbrev four : List ℕ
four = b'1' ∷ b'.' ∷ b'2' ∷ b'.' ∷ b'3' ∷ b'.' ∷ b'4' ∷ []

abbrev conversions : Conversions
conversions = record {
  pton4 = λ s. if same_bytes s four then some 7 else none;
  ntop4 = λ n. four;
  pton6 = λ s. none;
  ntop6 = λ ws. [];
}

abbrev eighty : List ℕ
eighty = b'8' ∷ b'0' ∷ []

-- The NUL of the text, and what follows it
abbrev memory : List ℕ
memory = 0 ∷ 1 ∷ 2 ∷ 3 ∷ 4 ∷ 5 ∷ []

-- "1.2.3.4:80x" has the port 80.
trailing_letter :
    parse_endpoint little conversions
      (record { text = four ++ (b':' ∷ eighty ++ (b'x' ∷ [])); behind = memory })
    ≡ done (
        ok (
          endpoint_of_ip little
            (ipv4 (record {
              addr = 7;
              addr_str = four ++ (b':' ∷ eighty ++ (b'x' ∷ 0 ∷ 1 ∷ 2 ∷ 3 ∷ 4 ∷ []));
              valid = true;
            }))
            80))
unfolding parse_endpoint find_last_of replace_localhost strip_brackets endpoint_of_views parse_ip
    ipv4_of_view index_of read_at from_chars scan is_digit in_range same_bytes c_str
trailing_letter = refl

parse_endpoint-fault_example :
    (parse_endpoint little conversions
        (record { text = localhost ++ (b':' ∷ eighty); behind = memory })
      ≡ fault)
    × (parse_endpoint little conversions (record { text = b':' ∷ eighty; behind = memory }) ≡ fault)
parse_endpoint-fault_example =
    parse_endpoint-fault little conversions eighty memory
      ((λ e. omega (arith, e)), ((λ e. omega (arith, e)), tt))

parse_endpoint-ok_example :
    (e : Endpoint) × (parse_endpoint little conversions
        (record { text = four ++ (b':' ∷ eighty); behind = memory })
      ≡ done (ok e))
    × (endpoint_address e ≡ in_addr 7)
    × (e.port ≡ value_from 0 eighty)
    × (e.net_port ≡ htons little (value_from 0 eighty))
    × (ip_string_of conversions e ≡ c_str (take 16 (reach (ip_part four eighty memory))))
unfolding same_bytes c_str
parse_endpoint-ok_example =
    parse_endpoint-ok little conversions b'1' b'8' 7 (b'.' ∷ b'2' ∷ b'.' ∷ b'3' ∷ b'.' ∷ b'4' ∷ [])
      (b'0' ∷ []) memory (λ e. cc) (λ e. omega (arith, e))
      (
        (λ e. omega (arith, e)),
        (
          (λ e. omega (arith, e)),
          (
            (λ e. omega (arith, e)),
            (
              (λ e. omega (arith, e)),
              ((λ e. omega (arith, e)), ((λ e. omega (arith, e)), ((λ e. omega (arith, e)), tt))),
            ),
          ),
        ),
      )
      refl (omega arith) ((omega arith, omega arith), ((omega arith, omega arith), tt))
      (omega arith)

-- "::1"
abbrev loopback6 : List ℕ
loopback6 = b':' ∷ b':' ∷ b'1' ∷ []

abbrev conversions6 : Conversions
conversions6 = record {
  pton4 = λ s. none;
  ntop4 = λ n. [];
  pton6 = λ s. if same_bytes s loopback6 then some (0 ∷ 0 ∷ 0 ∷ 1 ∷ []) else none;
  ntop6 = λ ws. loopback6;
}

parse_endpoint-bracketed_example :
    (e : Endpoint) × (parse_endpoint little conversions6
        (record { text = bracketed loopback6 ++ (b':' ∷ eighty); behind = replicate 40 0 })
      ≡ done (ok e))
    × (endpoint_address e ≡ in6_addr (0 ∷ 0 ∷ 0 ∷ 1 ∷ []))
    × (e.port ≡ value_from 0 eighty)
    × (e.net_port ≡ htons little (value_from 0 eighty))
    × (ip_string_of conversions6 e
        ≡ c_str (take 46 (loopback6 ++ (b']' ∷ b':' ∷ b'8' ∷ ((b'0' ∷ []) ++ replicate 40 0)))))
unfolding index_of same_bytes c_str
parse_endpoint-bracketed_example =
    parse_endpoint-bracketed little conversions6 0 b'8' (0 ∷ 0 ∷ 0 ∷ 1 ∷ []) loopback6 (b'0' ∷ [])
      (replicate 40 0) refl refl (omega arith)
      ((omega arith, omega arith), ((omega arith, omega arith), tt)) (omega arith)
