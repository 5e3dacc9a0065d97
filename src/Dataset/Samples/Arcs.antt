-- ===== src/Dataset/Samples/Arcs.antt =====
-- data/make_dataset.py: the conversations with normal arcs.
use sb_poc.Prelude.{[], ◌∷◌}
use sb_poc.Json.{Value, end}
use sb_poc.Dataset.{convo, role_text}
use sb_poc.Dataset.Samples.{acme, globex}

unfoldable pub c_000001 : Value
unfolding convo
c_000001 =
    convo "c-000001" acme "chat"
      ((role_text "customer"
          "Hi, my order was supposed to arrive on Tuesday and it hasn't turned up.")
        ∷ (role_text "agent" "Thanks for flagging that. Let me pull up the tracking for you.")
        ∷ (role_text "customer"
            "It just says label created. That's the same as it said four days ago.")
        ∷ (role_text "agent"
            "You're right, the carrier hasn't scanned it. I can raise a lost parcel case.")
        ∷ (role_text "customer"
            "A case? I've already waited a week. I needed this for the weekend.")
        ∷ (role_text "agent"
            "I understand. The case takes 48 hours before I can issue a replacement.")
        ∷ (role_text "customer"
            "This is genuinely useless. Nobody can tell me where my parcel is and now I'm being told to wait again.")
        ∷ (role_text "customer" "Cancel the whole thing. I'll buy it elsewhere.")
        ∷ [])
      0 end

unfoldable pub c_000002 : Value
unfolding convo
c_000002 =
    convo "c-000002" acme "chat"
      ((role_text "customer" "I've been charged twice for the same order. This is unacceptable.")
        ∷ (role_text "agent"
            "I'm sorry about that — I can see two authorisations on the account. Let me check.")
        ∷ (role_text "customer" "I want the second one gone today, not in five working days.")
        ∷ (role_text "agent"
            "Confirmed it's a duplicate. I've voided the second authorisation just now.")
        ∷ (role_text "customer" "Oh. So it won't actually leave my account?")
        ∷ (role_text "agent"
            "Correct — it was never captured, so nothing will be taken. You'll see it drop off within the hour.")
        ∷ (role_text "customer" "That's a relief. Thanks for sorting it out so quickly.")
        ∷ (role_text "customer" "Really appreciate you actually explaining what happened.")
        ∷ [])
      0 end

unfoldable pub c_000003 : Value
unfolding convo
c_000003 =
    convo "c-000003" acme "email"
      ((role_text "customer" "Could you confirm the dimensions of the medium size?")
        ∷ (role_text "agent" "The medium measures 40cm x 30cm x 15cm.")
        ∷ (role_text "customer" "And the weight?")
        ∷ (role_text "agent" "1.2kg empty.")
        ∷ (role_text "customer" "Understood, thank you.")
        ∷ [])
      0 end

unfoldable pub c_000004 : Value
unfolding convo
c_000004 =
    convo "c-000004" globex "ticketing"
      ((role_text "customer" "The export has been failing every night for a week.")
        ∷ (role_text "agent" "Let me look at the job logs.")
        ∷ (role_text "customer" "I raised this last Tuesday and was told it was fixed. It isn't.")
        ∷ (role_text "agent"
            "I can see the retries. The job is timing out at the same step each night.")
        ∷ (role_text "customer" "So the same failure, still unresolved, eight days later.")
        ∷ (role_text "agent" "I'm escalating this to the platform team now.")
        ∷ (role_text "customer" "That's what the last ticket said too.")
        ∷ [])
      0 end

unfoldable pub c_000005 : Value
unfolding convo
c_000005 =
    convo "c-000005" acme "chat"
      ((role_text "customer" "Brilliant, the new dashboard is exactly what I asked for!")
        ∷ (role_text "agent" "Glad to hear it. Anything else I can help with?")
        ∷ (role_text "customer"
            "Actually no, it's broken. All my saved filters are gone. This is a disaster.")
        ∷ (role_text "agent" "Let me check whether they were migrated.")
        ∷ (role_text "customer" "Found them under the old tab. Fantastic, panic over, sorry!")
        ∷ (role_text "agent" "No problem at all.")
        ∷ (role_text "customer"
            "Spoke too soon — the shared ones still aren't there and my team is blocked.")
        ∷ (role_text "customer" "Honestly the rollout has been a mess.")
        ∷ (role_text "agent"
            "Understood. Shared filters migrate in a second pass; I'll get you a timeline.")
        ∷ (role_text "customer" "Great, that's all I needed to know. Thanks!")
        ∷ [])
      0 end

unfoldable pub c_000006 : Value
unfolding convo
c_000006 =
    convo "c-000006" globex "email"
      ((role_text "customer"
          "Nothing in the onboarding guide matches the actual screens. Waste of an afternoon.")
        ∷ (role_text "agent"
            "Apologies — the guide predates last month's redesign. I'll send the current one.")
        ∷ (role_text "customer" "Right. Is there a changelog so I know what else is stale?")
        ∷ (role_text "agent" "Yes, linked at the top of the new guide.")
        ∷ (role_text "customer" "OK, that's more workable.")
        ∷ (role_text "customer" "I'll go through it and come back if anything else is off.")
        ∷ [])
      0 end

unfoldable pub c_000007 : Value
unfolding convo
c_000007 =
    convo "c-000007" acme "chat"
      ((role_text "customer" "Loving the new integration so far, setup was painless.")
        ∷ (role_text "agent" "Great to hear!")
        ∷ (role_text "customer" "Hmm, though the sync seems to be dropping records.")
        ∷ (role_text "agent" "How many are you seeing missing?")
        ∷ (role_text "customer" "About a fifth of them. That's a lot worse than I first thought.")
        ∷ (role_text "customer" "I can't put this live if it silently loses data.")
        ∷ [])
      0 end

unfoldable pub c_000008 : Value
unfolding convo
c_000008 =
    convo "c-000008" globex "ticketing"
      ((role_text "system" "Ticket created via web form.")
        ∷ (role_text "customer" "Password reset link expired before I could use it.")
        ∷ (role_text "agent" "I can send a fresh one. Links are valid for 15 minutes.")
        ∷ (role_text "agent" "Sent to the address on file.")
        ∷ (role_text "agent" "Let me know if it doesn't arrive within a few minutes.")
        ∷ (role_text "customer" "Got it, worked fine. Thanks.")
        ∷ (role_text "system" "Ticket resolved.")
        ∷ [])
      0 end

unfoldable pub c_000009 : Value
unfolding convo
c_000009 =
    convo "c-000009" acme "email"
      ((role_text "customer"
          "Not a complaint exactly, but the invoice layout is quite hard to read.")
        ∷ (role_text "agent" "Thanks — what specifically is causing trouble?")
        ∷ (role_text "customer"
            "The tax line is below the total, which trips up our finance team every month.")
        ∷ (role_text "agent" "That's fair. I'll pass it to the billing team as feedback.")
        ∷ (role_text "customer" "Appreciated, though I suspect it'll sit in a backlog.")
        ∷ [])
      0 end

unfoldable pub c_000010 : Value
unfolding convo
c_000010 =
    convo "c-000010" globex "chat"
      ((role_text "customer" "Trying to set up SSO and the metadata upload keeps erroring.")
        ∷ (role_text "agent" "What does the error say?")
        ∷ (role_text "customer"
            "Invalid certificate. But it's the same file our other vendor accepted.")
        ∷ (role_text "agent"
            "Some providers export a chain rather than a single cert. Can you check how many BEGIN blocks are in it?")
        ∷ (role_text "customer" "Three.")
        ∷ (role_text "agent" "That's the issue — we need just the signing cert, the first block.")
        ∷ (role_text "customer" "Trying that now.")
        ∷ (role_text "customer" "That worked. Well spotted.")
        ∷ (role_text "agent" "Anything else on the SSO side?")
        ∷ (role_text "customer" "No, that was the blocker. Thanks, genuinely helpful.")
        ∷ [])
      0 end
