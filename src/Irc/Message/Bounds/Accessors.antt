-- ===== src/Irc/Message/Bounds/Accessors.antt =====
-- The accessors on messages that keep the invariant.
use tmi_rs.Prelude.{
  ◌+◌, ◌≡◌, refl, subst, arith, List, [], ◌∷◌, All, IfSome, Bool-cases, Option-cases, inl, inr,
  Option, none, some, done, >>=_inv, Returns, >>=-Returns, done_inj,
}
use tmi_rs.Str.{Str, find, eq, slice_from}
use tmi_rs.Str.Boundary.{IsText, Boundary-next, find-drop, slice_from-Boundary}
use tmi_rs.Irc.Span.{Span, index}
use tmi_rs.Irc.Span.Inside.{Inside, index-Inside, index-IsText}
use tmi_rs.Irc.Prefix as Prefixes
use tmi_rs.Irc.Prefix.{RawPrefix, index_option}
use tmi_rs.Irc.Prefix.Bounds.{PrefixInside}
use tmi_rs.Irc.Command as Commands
use tmi_rs.Irc.Command.{Command, RawCommand}
use tmi_rs.Irc.Command.Bounds.{CommandInside}
use tmi_rs.Irc.Tag as TagNames
use tmi_rs.Irc.Tag.{Tag}
use tmi_rs.Irc.Tags
use tmi_rs.Irc.Tags.{TagPair}
use tmi_rs.Irc.Tags.Bounds.{PairInside}
use tmi_rs.Irc.Message.{
  IrcMessage, prefix, prefix_of, command, params, channel, channel_for, tag, tags, find_tag,
  text_ref, text_of_ref, text_owned, text_of_owned, after_colon,
}
use tmi_rs.Irc.Message.Bounds.{WellFormed}

index_option-Returns :
    (src : Str) (o : Option Span) → IfSome (Inside src) o → Returns (index_option src o)
unfolding index_option
index_option-Returns src none h = (none, refl)
index_option-Returns src (some span) h =
    >>=-Returns (index src span) _ (index-Inside src span h) λ s e. (some s, refl)

get-Returns : (src : Str) (raw : RawPrefix) → PrefixInside src raw → Returns (Prefixes.get raw src)
unfolding Prefixes.get
get-Returns src raw (hn, hu, hh) =
    >>=-Returns (index_option src raw.nick) _ (index_option-Returns src raw.nick hn) λ n _.
      >>=-Returns (index_option src raw.user) _ (index_option-Returns src raw.user hu)
        λ u _. >>=-Returns (index src raw.host) _ (index-Inside src raw.host hh) λ h _. (_, refl)

command_get-Returns :
    (src : Str) (raw : RawCommand) → CommandInside src raw → Returns (Commands.get raw src)
unfolding Commands.get
command_get-Returns src (RawCommand.other span) h =
    >>=-Returns (index src span) _ (index-Inside src span h) λ s _. (_, refl)
command_get-Returns src _ h = (_, refl)

find_tag-Returns :
    (src : Str) (pairs : List TagPair) (key : Str)
    → All (PairInside src) pairs
    → Returns (find_tag src pairs key)
unfolding find_tag
find_tag-Returns src [] key h = (none, refl)
find_tag-Returns src (pair ∷ pairs) key ((hk, hv), h) =
    >>=-Returns (index src (Tags.key pair)) _ (index-Inside src (Tags.key pair) hk) λ k _.
      elim (Bool-cases (eq k key)) [
        | inl hit ↦ rw hit (
            >>=-Returns (index src (Tags.value pair)) _ (index-Inside src (Tags.value pair) hv)
              λ v _. (_, refl))
        | inr miss ↦ rw miss (find_tag-Returns src pairs key h)
      ]

collect-Returns :
    (src : Str) (pairs : List TagPair)
    → All (PairInside src) pairs
    → Returns (Tags.collect src pairs)
unfolding Tags.collect Tags.get
collect-Returns src [] h = ([], refl)
collect-Returns src (pair ∷ pairs) ((hk, hv), h) =
    >>=-Returns (Tags.get src pair) _
      (>>=-Returns (index src (Tags.key pair)) _ (index-Inside src (Tags.key pair) hk) λ k _.
        >>=-Returns (index src (Tags.value pair)) _ (index-Inside src (Tags.value pair) hv)
          λ v _. (_, refl))
      λ kv _.
        >>=-Returns (Tags.collect src pairs) _ (collect-Returns src pairs h) λ rest _. (_, refl)

after_colon-Returns :
    (s : Str) (absent : Option Str) → IsText s → Returns (after_colon s absent (find s b':'))
unfolding after_colon
after_colon-Returns s absent h = elim (Option-cases (find s b':')) [
  | inl miss ↦ rw miss (_, refl)
  | inr (i, hit) ↦
      let (r, here) = find-drop s b':' i hit in
      let behind = Boundary-next s i (i + 1) b':' r h (omega arith) here refl in
      rw hit (
        >>=-Returns (slice_from s (i + 1)) _ (_, slice_from-Boundary s (i + 1) behind)
          λ t _. (_, refl))
]

prefix_of-Returns :
    (src : Str) (o : Option RawPrefix) → IfSome (PrefixInside src) o → Returns (prefix_of src o)
unfolding prefix_of
prefix_of-Returns src none h = (none, refl)
prefix_of-Returns src (some raw) h =
    >>=-Returns (Prefixes.get raw src) _ (get-Returns src raw h) λ p _. (_, refl)

channel_for-Returns : (m : IrcMessage) (c : Command) → WellFormed m → Returns (channel_for m c)
unfolding channel_for params
channel_for-Returns m Command.rpl_names ok =
    >>=-Returns (index_option m.src m.parts.params) _
      (index_option-Returns m.src m.parts.params ok.params) λ p _. (_, refl)
channel_for-Returns m Command.rpl_end_of_names ok =
    >>=-Returns (index_option m.src m.parts.params) _
      (index_option-Returns m.src m.parts.params ok.params) λ p _. (_, refl)
channel_for-Returns m _ ok = index_option-Returns m.src m.parts.channel ok.channel

params-IsText :
    (src : Str) (o : Option Span) (p : Option Str)
    → IsText src
    → index_option src o ≡ done p
    → IfSome IsText p
unfolding index_option
params-IsText src none p h e = subst (IfSome IsText) (done_inj e) tt
params-IsText src (some span) p h e =
    let (s, cut, ended) = >>=_inv (index src span) _ p e in
    subst (IfSome IsText) (done_inj ended) (index-IsText src span s h cut)

text_of_ref-Returns : (p : Option Str) → IfSome IsText p → Returns (text_of_ref p)
unfolding text_of_ref
text_of_ref-Returns none h = (none, refl)
text_of_ref-Returns (some s) h = after_colon-Returns s (some s) h

text_of_owned-Returns : (p : Option Str) → IfSome IsText p → Returns (text_of_owned p)
unfolding text_of_owned
text_of_owned-Returns none h = (none, refl)
text_of_owned-Returns (some s) h = after_colon-Returns s none h

module _ (m : IrcMessage) (ok : WellFormed m) where
  pub command-Returns : Returns (command m)
  unfolding command
  command-Returns = command_get-Returns m.src m.parts.command ok.command

  pub params-Returns : Returns (params m)
  unfolding params
  params-Returns = index_option-Returns m.src m.parts.params ok.params

  pub prefix-Returns : Returns (prefix m)
  unfolding prefix
  prefix-Returns = prefix_of-Returns m.src m.parts.prefix ok.prefix

  pub channel-Returns : Returns (channel m)
  unfolding channel
  channel-Returns = >>=-Returns (command m) _ command-Returns λ c _. channel_for-Returns m c ok

  pub tag-Returns : (t : Tag) → Returns (tag m t)
  unfolding tag
  tag-Returns t = find_tag-Returns m.src m.parts.tags (TagNames.as_str t) ok.tags

  pub tags-Returns : Returns (tags m)
  unfolding tags
  tags-Returns = collect-Returns m.src m.parts.tags ok.tags

  pub text_ref-Returns : Returns (text_ref m)
  unfolding text_ref params
  text_ref-Returns =
      >>=-Returns (params m) _ params-Returns
        λ p e. text_of_ref-Returns p (params-IsText m.src m.parts.params p ok.text e)

  pub text_owned-Returns : Returns (text_owned m)
  unfolding text_owned params
  text_owned-Returns =
      >>=-Returns (params m) _ params-Returns
        λ p e. text_of_owned-Returns p (params-IsText m.src m.parts.params p ok.text e)
