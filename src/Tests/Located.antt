-- ===== src/Tests/Located.antt =====
-- An example for the addresses and the geo data of the hosts: the network answers only once.
use weronity_vpn.Prelude.{
  ◌≡◌, refl, String, Bool, true, false, Option, none, some, List, [], ◌∷◌, All, ◌==◌,
}
use weronity_vpn.Prelude.Int.{pos}
use weronity_vpn.Prelude.Dict.{Dict}
use weronity_vpn.Prelude.Text.{one_of}
use weronity_vpn.Prelude.Result.{Result, ok}
use weronity_vpn.Models.{ParsedNode, Geo}
use weronity_vpn.Resolver.{Answer}
use weronity_vpn.Resolver.Lookup.{lookup_geo}
use weronity_vpn.Build.Located.{locate}
use weronity_vpn.Build.Located.Agree.{IsLocated, locate_agrees}
use weronity_vpn.Tests.Setup.{ascii, upper_ascii, blank_node, value_or}
use weronity_vpn.Tests.Commands.{countries, is_letter}

abbrev first : String → Answer
first host = some ((false, "::1") ∷ (true, "1.2.3.4") ∷ [])

abbrev later : String → Answer
later host = none

abbrev answers_of : Option String → Result Geo
answers_of = lookup_geo ⦃py = ascii⦄ is_letter (some countries) none

abbrev nodes : List ParsedNode
nodes =
    blank_node
    ∷ record blank_node {
      endpoint = record { host = "10.0.0.1"; port = pos 80; resolved_ip = none };
    }
    ∷ []

abbrev encodes : String → Bool
encodes host = true

abbrev hosts : List String
hosts = "10.0.0.1" ∷ "a.example" ∷ []

abbrev located : Dict Geo × List ParsedNode
unfolding locate upper_ascii lookup_geo
located =
    value_or ([], []) (locate (λ s. s == "10.0.0.1") first later answers_of encodes hosts nodes)

located_done : locate (λ s. s == "10.0.0.1") first later answers_of encodes hosts nodes ≡ ok located
unfolding locate upper_ascii located lookup_geo
located_done = refl

locate_agrees_example :
    All (IsLocated (λ s. s == "10.0.0.1") first later answers_of located.0) located.1
locate_agrees_example =
    locate_agrees (λ s. s == "10.0.0.1") first later answers_of encodes hosts nodes located.1
      located.0 (unfold one_of in (refl, (refl, tt))) located_done
