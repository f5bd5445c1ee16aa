-- ===== src/Notifier/Tests.antt =====
-- Runs of the channels of notifications.
use doupro.Base.{arith, false, ◌≡◌, ◌≢◌, refl, inl, inr, List, [], ◌∷◌, Text, codes, IsOneOf}
use doupro.Notifier.Channels.{
  matches, Channel, job_for, notify, set_channels, saved, channel_needs_url, categorize,
  public_channels,
}
use doupro.Notifier.Channels.Scope.{rollback_auto_reaches}
use doupro.Notifier.Channels.Urls.{set_channels-InPlace, with_urls}

abbrev channel : Text → Text → List Text → List Text → Channel
channel name url events stacks = record {
  name = name;
  url = url;
  events = events;
  stacks = stacks;
  containers = [];
  configured = false;
  provider = [];
}

abbrev chat : Channel
chat = channel (codes "chat") (codes "slack://x") (codes "update.applied" ∷ []) (codes "web" ∷ [])

abbrev phone : Channel
phone = channel (codes "phone") (codes "ntfy://y") [] []

abbrev stored : List Channel
stored = chat ∷ phone ∷ []

revert_failed : categorize (codes "update.revert_failed") ≡ codes "update.failed"
unfolding categorize
revert_failed = refl

chat_url : chat.url ≢ []
chat_url = ground arith

phone_url : phone.url ≢ []
phone_url = ground arith

filtered :
    notify (codes "update.failed") (codes "db") (codes "web") (codes "m") stored
    ≡ job_for (codes "update.failed") (codes "db") (codes "web") (codes "m") phone ∷ []
unfolding notify matches categorize
filtered = refl

no_url : set_channels stored (channel (codes "new") [] [] [] ∷ []) ≡ channel_needs_url (codes "new")
unfolding set_channels
no_url = refl

saved_again : set_channels stored (public_channels stored) ≡ saved stored
unfolding set_channels public_channels
saved_again = refl

rollback_auto_reaches_example :
    IsOneOf
      (notify (codes "rollback.auto.failed") (codes "db") (codes "web") (codes "m") stored)
      (job_for (codes "rollback.auto.failed") (codes "db") (codes "web") (codes "m") chat)
rollback_auto_reaches_example =
    rollback_auto_reaches (codes "rollback.auto.failed") (codes "db") (codes "web") (codes "m")
      stored chat refl (inl refl) (inr (inr (inl (refl, refl))))

-- The first channel renamed, the second with a new filter.
abbrev edited : List Channel
edited =
    channel (codes "team") [] [] [] ∷ channel (codes "phone") [] (codes "check.failed" ∷ []) [] ∷ []

set_channels-InPlace_example : set_channels stored edited ≡ saved (with_urls stored edited)
set_channels-InPlace_example =
    set_channels-InPlace stored edited (refl, (refl, tt))
      (refl, chat_url, inr refl, (refl, phone_url, inl refl, tt))
