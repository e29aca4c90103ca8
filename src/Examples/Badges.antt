-- ===== src/Examples/Badges.antt =====
-- The badges that two texts say, and an instance of the theorem on them.
use tmi_rs.Prelude.{List, none, some, [], ◌∷◌, ◌≡◌, ◌≢◌, ◌↔◌, inl, refl, arith}
use tmi_rs.Str.{codes}
use tmi_rs.Str.Numbers as Numbers
use tmi_rs.Str.Numbers.Laws.{parse_unsigned_iff}
use tmi_rs.Msg.Badge.{Badge, other, subscriber, parse_badges}
use tmi_rs.Msg.Badge.Listed.{SaysBadges, keeps, end, next, none_left, is_other, is_subscriber}
use tmi_rs.Msg.Badge.Listed.Parsed.{parse_badges_iff}

-- A badge that the parser does not know, and a subscriber.
abbrev pub chat_badges : List Badge
chat_badges =
    other (record { name = codes "vip"; version = codes "1"; extra = none })
    ∷ subscriber (record { version = codes "12"; months = codes "13"; months_n = 13 })
    ∷ []

vip_lacks_subscriber : codes "subscriber" ≢ codes "vip"
vip_lacks_subscriber e = cc

pub chat_badges_said : SaysBadges (codes "vip/1,subscriber/12") (codes "subscriber/13") chat_badges
unfolding Numbers.parse_unsigned Numbers.digits
chat_badges_said = record {
  pairs = (codes "vip", codes "1") ∷ (codes "subscriber", codes "12") ∷ [];
  details = (codes "subscriber", codes "13") ∷ [];
  holds = record {
    part = codes "vip/1";
    parts = codes "subscriber/12" ∷ [];
    text = refl;
    no_comma = omega arith;
    no_commas = omega arith;
    kept =
        keeps (codes "vip") (codes "1") refl (omega arith)
          (keeps (codes "subscriber") (codes "12") refl (omega arith) end);
  };
  details_hold = record {
    part = codes "subscriber/13";
    parts = [];
    text = refl;
    no_comma = omega arith;
    no_commas = tt;
    kept = keeps (codes "subscriber") (codes "13") refl (omega arith) end;
  };
  listed =
      next none (vip_lacks_subscriber, tt)
        (is_other (λ e. cc) (λ e. cc) (λ e. cc) (λ e. cc) (λ e. cc))
        (next (some (codes "13")) ([], [], refl, tt)
          (is_subscriber (codes "13") 13 refl
            (refl, inl ((parse_unsigned_iff 64 13 (codes "13")).0 refl)))
          none_left);
}

parse_badges_example :
    (parse_badges (codes "vip/1,subscriber/12") (codes "subscriber/13") ≡ chat_badges)
    ↔ SaysBadges (codes "vip/1,subscriber/12") (codes "subscriber/13") chat_badges
parse_badges_example =
    parse_badges_iff (codes "vip/1,subscriber/12") (codes "subscriber/13") chat_badges
