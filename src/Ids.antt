-- ===== src/Ids.antt =====
-- src/macros/mod.rs, and its three uses in src/destinations.rs: the macro makes a distinct newtype
-- of a string for each name, with the same methods. Here one family, indexed by the name.
use little_stomper.Prelude.{String, ◌≡◌, String-discrete}

pub data IdClass : Type 0 where
  subscription destination message : IdClass

pub record StringId (c : IdClass) : Type 0 where
  pub text : String

abbrev pub SubscriptionId : Type 0
SubscriptionId = StringId subscription

abbrev pub DestinationId : Type 0
DestinationId = StringId destination

abbrev pub MessageId : Type 0
MessageId = StringId message

module _ {c : IdClass} where
  -- `From<&str>` and `From<&String>`, and the tuple constructor.
  abbrev pub from_str : String → StringId c
  from_str s = record { text = s }

  abbrev as_str : StringId c → String
  as_str i = i.text

  -- `From<$name> for String`.
  abbrev pub into_string : StringId c → String
  into_string i = i.text

  -- `Display`.
  abbrev pub display : StringId c → String
  display i = i.text

  unfoldable pub StringId-discrete : Discrete (StringId c)
  unfolding String-discrete
  StringId-discrete i j = same (String-discrete i.text j.text)
    where
      same : Dec (i.text ≡ j.text) → Dec (i ≡ j)
      same (yes p) = yes (λ k. record { text = p k })
      same (no p) = no (λ e. p (λ k. (e k).text))
