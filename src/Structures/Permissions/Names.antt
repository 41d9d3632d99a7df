-- ===== src/Structures/Permissions/Names.antt =====
-- The tables of permissions and `#resolve` of packages/structures/src/permissions.ts. `BigInt` of a
-- text is the argument `parse`, `none` where it throws. Bit fields are not negative, and the names
-- that every JavaScript object inherits are not taken for permissions.
use lunibee.Base.{
  ◌++◌, ℕ, Option, none, some, List, [], ◌∷◌, if◌then◌else◌, Text, text_eq, codes, to_lower,
}
use lunibee.Structures.Permissions.Bits.{Bits, bit, or_bits}

-- `Permission`, each name with its bit.
abbrev pub permission : List (Text × ℕ)
permission =
    (codes "createInstantInvite", 0)
    ∷ (codes "kickMembers", 1)
    ∷ (codes "banMembers", 2)
    ∷ (codes "administrator", 3)
    ∷ (codes "manageChannels", 4)
    ∷ (codes "manageGuild", 5)
    ∷ (codes "addReactions", 6)
    ∷ (codes "viewAuditLog", 7)
    ∷ (codes "prioritySpeaker", 8)
    ∷ (codes "stream", 9)
    ∷ (codes "viewChannel", 10)
    ∷ (codes "sendMessages", 11)
    ∷ (codes "sendTTSMessages", 12)
    ∷ (codes "manageMessages", 13)
    ∷ (codes "embedLinks", 14)
    ∷ (codes "attachFiles", 15)
    ∷ (codes "readMessageHistory", 16)
    ∷ (codes "mentionEveryone", 17)
    ∷ (codes "useExternalEmojis", 18)
    ∷ (codes "viewGuildInsights", 19)
    ∷ (codes "connect", 20)
    ∷ (codes "speak", 21)
    ∷ (codes "muteMembers", 22)
    ∷ (codes "deafenMembers", 23)
    ∷ (codes "moveMembers", 24)
    ∷ (codes "useVAD", 25)
    ∷ (codes "changeNickname", 26)
    ∷ (codes "manageNicknames", 27)
    ∷ (codes "manageRoles", 28)
    ∷ (codes "manageWebhooks", 29)
    ∷ (codes "manageGuildExpressions", 30)
    ∷ (codes "useApplicationCommands", 31)
    ∷ (codes "requestToSpeak", 32)
    ∷ (codes "manageEvents", 33)
    ∷ (codes "manageThreads", 34)
    ∷ (codes "createPublicThreads", 35)
    ∷ (codes "createPrivateThreads", 36)
    ∷ (codes "useExternalStickers", 37)
    ∷ (codes "sendMessagesInThreads", 38)
    ∷ (codes "useEmbeddedActivities", 39)
    ∷ (codes "moderateMembers", 40)
    ∷ (codes "viewCreatorMonetizationAnalytics", 41)
    ∷ (codes "useSoundboard", 42)
    ∷ (codes "createGuildExpressions", 43)
    ∷ (codes "createEvents", 44)
    ∷ (codes "useExternalSounds", 45)
    ∷ (codes "sendVoiceMessages", 46)
    ∷ (codes "setVoiceChannelStatus", 48)
    ∷ (codes "sendPolls", 49)
    ∷ (codes "useExternalApps", 50)
    ∷ (codes "pinMessages", 51)
    ∷ (codes "bypassSlowmode", 52)
    ∷ []

-- `Permissions`, each name with its bit.
abbrev pub permissions : List (Text × ℕ)
permissions =
    (codes "CreateInstantInvite", 0)
    ∷ (codes "KickMembers", 1)
    ∷ (codes "BanMembers", 2)
    ∷ (codes "Administrator", 3)
    ∷ (codes "ManageChannels", 4)
    ∷ (codes "ManageGuild", 5)
    ∷ (codes "AddReactions", 6)
    ∷ (codes "ViewAuditLog", 7)
    ∷ (codes "PrioritySpeaker", 8)
    ∷ (codes "Stream", 9)
    ∷ (codes "ViewChannel", 10)
    ∷ (codes "SendMessages", 11)
    ∷ (codes "SendTTSMessages", 12)
    ∷ (codes "ManageMessages", 13)
    ∷ (codes "EmbedLinks", 14)
    ∷ (codes "AttachFiles", 15)
    ∷ (codes "ReadMessageHistory", 16)
    ∷ (codes "MentionEveryone", 17)
    ∷ (codes "UseExternalEmojis", 18)
    ∷ (codes "ViewGuildInsights", 19)
    ∷ (codes "Connect", 20)
    ∷ (codes "Speak", 21)
    ∷ (codes "MuteMembers", 22)
    ∷ (codes "DeafenMembers", 23)
    ∷ (codes "MoveMembers", 24)
    ∷ (codes "UseVAD", 25)
    ∷ (codes "ChangeNickname", 26)
    ∷ (codes "ManageNicknames", 27)
    ∷ (codes "ManageRoles", 28)
    ∷ (codes "ManageWebhooks", 29)
    ∷ (codes "ManageGuildExpressions", 30)
    ∷ (codes "UseApplicationCommands", 31)
    ∷ (codes "RequestToSpeak", 32)
    ∷ (codes "ManageEvents", 33)
    ∷ (codes "ManageThreads", 34)
    ∷ (codes "CreatePublicThreads", 35)
    ∷ (codes "CreatePrivateThreads", 36)
    ∷ (codes "UseExternalStickers", 37)
    ∷ (codes "SendMessagesInThreads", 38)
    ∷ (codes "UseEmbeddedActivities", 39)
    ∷ (codes "ModerateMembers", 40)
    ∷ (codes "ViewCreatorMonetizationAnalytics", 41)
    ∷ (codes "UseSoundboard", 42)
    ∷ (codes "CreateGuildExpressions", 43)
    ∷ (codes "CreateEvents", 44)
    ∷ (codes "UseExternalSounds", 45)
    ∷ (codes "SendVoiceMessages", 46)
    ∷ (codes "SetVoiceChannelStatus", 48)
    ∷ (codes "SendPolls", 49)
    ∷ (codes "UseExternalApps", 50)
    ∷ (codes "PinMessages", 51)
    ∷ (codes "BypassSlowmode", 52)
    ∷ []

abbrev pub administrator : ℕ
administrator = 3

abbrev pub view_channel : ℕ
view_channel = 10

abbrev pub read_message_history : ℕ
read_message_history = 16

-- Names that Discord has since renamed.
abbrev pub renamed : List (Text × Text)
renamed =
    (codes "ManageEmojisAndStickers", codes "ManageGuildExpressions")
    ∷ (codes "ManageEmojis", codes "ManageGuildExpressions")
    ∷ (codes "UseSlashCommands", codes "UseApplicationCommands")
    ∷ []

abbrev pub lookup {ℓ} : {A : Type ℓ} → Text → List (Text × A) → Option A
lookup s [] = none
lookup s ((name, a) ∷ xs) = if text_eq s name then some a else lookup s xs

abbrev pub as_bit : Option ℕ → Option Bits
as_bit none = none
as_bit (some i) = some (bit i)

abbrev pub or_else {ℓ} : {A : Type ℓ} → Option A → Option A → Option A
or_else none b = b
or_else (some a) b = some a

-- The name with its first letter in lower case.
abbrev pub lower_first : Text → Text
lower_first [] = []
lower_first (c ∷ s) = to_lower (c ∷ []) ++ s

-- A name that was not renamed.
unfoldable pub resolve_current : (Text → Option Bits) → Text → Option Bits
resolve_current parse s =
    or_else
      (as_bit (
        or_else (lookup s permission)
          (or_else (lookup s permissions) (lookup (lower_first s) permission))))
      (parse s)

-- No new name is an old one, so one renaming is enough.
unfoldable pub resolve_name : (Text → Option Bits) → Text → Option Bits
resolve_name parse s = elim (lookup s renamed) [
  | none ↦ resolve_current parse s
  | some current ↦ resolve_current parse current
]

-- A bit field (as a bigint, a number or a `PermissionSet`), a name, or an array.
mutual
  pub data Resolvable : Type 0 where
    raw : Bits → Resolvable
    named : Text → Resolvable
    array : Resolvables → Resolvable

  pub data Resolvables : Type 0 where
    nil : Resolvables
    cons : Resolvable → Resolvables → Resolvables

abbrev pub join_bits : Option Bits → Option Bits → Option Bits
join_bits none b = none
join_bits (some a) none = none
join_bits (some a) (some b) = some (or_bits a b)

-- `none` is the error that a value does not resolve.
unfoldable mutual
  pub resolve : (Text → Option Bits) → Resolvable → Option Bits
  resolve parse (raw b) = some b
  resolve parse (named s) = resolve_name parse s
  resolve parse (array rs) = resolve_all parse rs

  pub resolve_all : (Text → Option Bits) → Resolvables → Option Bits
  resolve_all parse nil = some []
  resolve_all parse (cons r rs) = join_bits (resolve parse r) (resolve_all parse rs)
