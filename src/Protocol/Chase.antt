-- ===== src/Protocol/Chase.antt =====
-- The loop over the CNAME records, as one list of answers.
use lrmdns.Prelude.{◌≡◌, refl, ◌∙◌, ap, Option, none, some, List, [], ◌∷◌, ◌++◌, option_or}
use mathlib.Core.List.{append_assoc, append-nil}
use lrmdns.Dns.Name.{DnsApi}
use lrmdns.Dns.Rr.{RecordType, Record, RData}
use lrmdns.Dns.Op.{Message, add_answers}
use lrmdns.Zone.{Zone, lookup}
use lrmdns.Protocol.{add_target, chase_target, chase_all}

module _ {Name : Type 0} ⦃api : DnsApi Name⦄ where
  -- the records of the queried type at the target of one record
  abbrev pub targets_of : Zone Name → RecordType → Option (RData Name) → List (Record Name)
  targets_of z t (some (RData.cname target)) = option_or (lookup z target t) []
  targets_of z t _ = []

  -- Each record, followed by the records at its target: one link of the chain, not more.
  abbrev pub chased : Zone Name → RecordType → List (Record Name) → List (Record Name)
  chased z t [] = []
  chased z t (r ∷ rs) = r ∷ (targets_of z t r.rdata ++ chased z t rs)

  add_answers-add_answers :
      (xs ys : List (Record Name)) (m : Message Name)
      → add_answers ys (add_answers xs m) ≡ add_answers (xs ++ ys) m
  add_answers-add_answers xs ys m = rw append_assoc

  add_target-eq :
      (found : Option (List (Record Name))) (m : Message Name)
      → add_target found m ≡ add_answers (option_or found []) m
  add_target-eq none m = rw append-nil
  add_target-eq (some rs) m = refl

  chase_target-eq :
      (z : Zone Name) (t : RecordType) (rd : Option (RData Name)) (m : Message Name)
      → chase_target z t rd m ≡ add_answers (targets_of z t rd) m
  chase_target-eq z t (some (RData.cname target)) m = add_target-eq (lookup z target t) m
  chase_target-eq z t _ m = rw append-nil

  pub chase_all-eq :
      (z : Zone Name) (t : RecordType) (rs : List (Record Name)) (m : Message Name)
      → chase_all z t rs m ≡ add_answers (chased z t rs) m
  unfolding chase_all
  chase_all-eq z t [] m = rw append-nil
  chase_all-eq z t (r ∷ rs) m =
      chase_all-eq z t rs _
      ∙ ap (add_answers (chased z t rs)) (chase_target-eq z t r.rdata (add_answers (r ∷ []) m))
      ∙ simp append_assoc
