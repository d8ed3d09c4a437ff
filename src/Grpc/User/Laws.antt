-- ===== src/Grpc/User/Laws.antt =====
-- Rights are not confused on the wire, and parties and users come back, the conversions of
-- daml-grpc/src/data/user.rs and party.rs.
use rust_daml_bindings.Base.{◌≡◌, ◌↔◌, refl, sym, ap, Option, none, some, ok, ok_inj, map_option}
use rust_daml_bindings.Grpc.User.{
  DamlObjectMeta, DamlUser, DamlPartyDetails, DamlUserRight, participant_admin, can_act_as,
  can_read_as, can_execute_as, identity_provider_admin, can_read_as_any_party,
  can_execute_as_any_party, to_meta, of_meta, to_party_details, of_party_details, to_user, of_user,
  kind_of_right, right_of_kind, to_right, of_right,
}
use rust_daml_bindings.Grpc.User.Proto as Wire

right_of_kind-kind_of_right : (r : DamlUserRight) → right_of_kind (kind_of_right r) ≡ r
unfolding right_of_kind kind_of_right
right_of_kind-kind_of_right participant_admin = refl
right_of_kind-kind_of_right (can_act_as p) = refl
right_of_kind-kind_of_right (can_read_as p) = refl
right_of_kind-kind_of_right (can_execute_as p) = refl
right_of_kind-kind_of_right identity_provider_admin = refl
right_of_kind-kind_of_right can_read_as_any_party = refl
right_of_kind-kind_of_right can_execute_as_any_party = refl

kind_of_right-right_of_kind : (k : Wire.RightKind) → kind_of_right (right_of_kind k) ≡ k
unfolding right_of_kind kind_of_right
kind_of_right-right_of_kind Wire.participant_admin = refl
kind_of_right-right_of_kind (Wire.can_act_as p) = refl
kind_of_right-right_of_kind (Wire.can_read_as p) = refl
kind_of_right-right_of_kind (Wire.can_execute_as p) = refl
kind_of_right-right_of_kind Wire.identity_provider_admin = refl
kind_of_right-right_of_kind Wire.can_read_as_any_party = refl
kind_of_right-right_of_kind Wire.can_execute_as_any_party = refl

read_kind :
    (k : Option Wire.RightKind) (r : DamlUserRight)
    → to_right (record { kind = k }) ≡ ok r
    → k ≡ some (kind_of_right r)
read_kind none r h = cc
read_kind (some k) r h = rw (sym (ok_inj h), kind_of_right-right_of_kind k) refl

-- A message is read as a right where it is the message that the right is written as, and only there: no
-- other message, and none without a kind, gives the right.
pub to_right_iff : (m : Wire.Right) (r : DamlUserRight) → (to_right m ≡ ok r) ↔ (m ≡ of_right r)
to_right_iff m r = (
  (λ h. let e = read_kind m.kind r h in ap (λ k. record { kind = k }) e),
  (λ e. rw (e, right_of_kind-kind_of_right r) refl),
)

meta_back : (m : Option DamlObjectMeta) → map_option to_meta (map_option of_meta m) ≡ m
meta_back none = refl
meta_back (some m) = refl

-- A party comes back from the message that it is written as.
pub to_party_details-of_party_details :
    (d : DamlPartyDetails) → to_party_details (of_party_details d) ≡ d
to_party_details-of_party_details d = rw (meta_back d.local_metadata) refl

-- A user comes back from the message that it is written as.
pub to_user-of_user : (u : DamlUser) → to_user (of_user u) ≡ u
to_user-of_user u = rw (meta_back u.metadata) refl
