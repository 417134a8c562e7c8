-- ===== src/Config/Entries.antt =====
-- The checks of an address and of the ports of an entry.
use kepos.Common.{
  ℕ, ◌≤◌, false, not, ◌||◌, Option, none, some, ◌++◌, map, ltb, ◌==◌, length, All, ◌≡◌, refl, arith,
  if_cases,
}
use kepos.Common.Json.{Json, text, array, object, to_list}
use kepos.Common.Integers.{pos, negsuc}
use kepos.Common.Text.{Text, codes, text_eq, number}
use kepos.Common.Split.{split}
use kepos.ReceiverState.Durable.{Grant, all_ports, ports}
use kepos.ReceiverState.{repeated}
use kepos.ReceiverState.Addresses.{ipv4, some_bad, reserved, word}
use kepos.Config.Values.{Parsed, ok, error, parse_port, parse_address, each, indexed}
use kepos.Config.{parse_allowed}
use kepos.ReceiverState.Addresses.Canonical.{ipv4_lem}
use kepos.Config.Accepted.{Gives, Gives-then, each-Gives}

pub IsUnicast : Text → Type 0
IsUnicast a = (n : ℕ) × (ipv4 a ≡ some n)

pub parse_address-Gives : (v : Option Json) (f : Text) → Gives IsUnicast (parse_address v f)
unfolding parse_address IsUnicast
parse_address-Gives (some (text s)) f =
    let parts = split b'.' s in
    if_cases (Gives IsUnicast)
      (not (length parts == 4) || some_bad parts || reserved (map number parts)) _ _ (λ e. tt)
      (λ e. (word (map number parts), read s e))
  where
    read :
        (s : Text)
        → (not (length (split b'.' s) == 4)
            || some_bad (split b'.' s)
            || reserved (map number (split b'.' s)))
          ≡ false
        → ipv4 s ≡ some (word (map number (split b'.' s)))
    read s e = ipv4_lem s e
parse_address-Gives none f = tt
parse_address-Gives (some Json.null) f = tt
parse_address-Gives (some (Json.boolean b)) f = tt
parse_address-Gives (some (Json.number n)) f = tt
parse_address-Gives (some (Json.fraction n)) f = tt
parse_address-Gives (some (array js)) f = tt
parse_address-Gives (some (object fs)) f = tt

-- A grant of distinct ports from 1 through 65535.
pub IsGrant : Grant → Type 0
IsGrant all_ports = Unit
IsGrant (ports ns) = All (λ n. (1 ≤ n) × (n ≤ 65535)) ns × (repeated ns ≡ false)

parse_port-Gives :
    (v : Option Json) (f : Text) → Gives (λ n. (1 ≤ n) × (n ≤ 65535)) (parse_port v f)
parse_port-Gives (some (Json.number (pos n))) f =
    if_cases (Gives (λ n. (1 ≤ n) × (n ≤ 65535))) (ltb n 1 || ltb 65535 n) _ _ (λ e. tt)
      (λ e. (ground arith, ground arith))
parse_port-Gives (some (Json.number (negsuc n))) f = tt
parse_port-Gives none f = tt
parse_port-Gives (some Json.null) f = tt
parse_port-Gives (some (Json.boolean b)) f = tt
parse_port-Gives (some (text s)) f = tt
parse_port-Gives (some (Json.fraction n)) f = tt
parse_port-Gives (some (array js)) f = tt
parse_port-Gives (some (object fs)) f = tt

pub parse_allowed-Gives : (v : Option Json) (f : Text) → Gives IsGrant (parse_allowed v f)
unfolding parse_allowed IsGrant repeated
parse_allowed-Gives none f = (tt, refl)
parse_allowed-Gives (some (text s)) f =
    if_cases (Gives IsGrant) (text_eq s (codes "all")) _ _ (λ e. tt) (λ e. tt)
parse_allowed-Gives (some (array js)) f =
    let name = f ++ codes ".allowTcp" in
    let parse : ℕ → Json → Parsed ℕ = λ i port. parse_port (some port) (indexed name i) in
    Gives-then (All (λ n. (1 ≤ n) × (n ≤ 65535))) IsGrant (each parse 0 (to_list js)) _
      (each-Gives (λ n. (1 ≤ n) × (n ≤ 65535)) parse 0 (to_list js)
        (λ i j. parse_port-Gives (some j) (indexed name i)))
      (λ ns good.
        if_cases (Gives IsGrant) (repeated ns)
          (error (f ++ codes ".allowTcp contains a duplicate port")) (ok (ports ns)) (λ e. tt)
          (λ e. (good, e)))
parse_allowed-Gives (some Json.null) f = tt
parse_allowed-Gives (some (Json.boolean b)) f = tt
parse_allowed-Gives (some (Json.number n)) f = tt
parse_allowed-Gives (some (Json.fraction n)) f = tt
parse_allowed-Gives (some (object fs)) f = tt
