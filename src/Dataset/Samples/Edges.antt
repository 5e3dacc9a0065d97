-- ===== src/Dataset/Samples/Edges.antt =====
-- data/make_dataset.py: the short, repeated and foreign conversations.
use sb_poc.Prelude.{[], ◌∷◌}
use sb_poc.Json.{Value, end}
use sb_poc.Dataset.{convo, role_text, role_text_seq}
use sb_poc.Dataset.Samples.{acme, globex}

unfoldable pub c_000016 : Value
unfolding convo
c_000016 =
    convo "c-000016" acme "chat" ((role_text "customer" "Do you ship to Ireland?") ∷ []) 0 end

unfoldable pub c_000017 : Value
unfolding convo
c_000017 =
    convo "c-000017" acme "ticketing"
      ((role_text "system" "Ticket auto-created by monitoring: failed webhook delivery.")
        ∷ (role_text "agent" "Investigated — receiving endpoint returned 503 for 20 minutes.")
        ∷ (role_text "agent" "Deliveries retried successfully. Closing.")
        ∷ (role_text "system" "Ticket closed without customer contact.")
        ∷ [])
      0 end

unfoldable pub c_000018 : Value
unfolding convo
c_000018 = convo "c-000018" acme "chat" [] 0 end

unfoldable pub c_000019 : Value
unfolding convo
c_000019 =
    convo "c-000019" acme "chat"
      ((role_text "customer" "")
        ∷ (role_text "agent" "Sorry, I didn't catch that — could you resend?")
        ∷ (role_text "customer" "   ")
        ∷ (role_text "customer" "\t\n  ")
        ∷ (role_text "agent" "Still not coming through on my side.")
        ∷ (role_text "customer" "Sorry, phone keyboard. My delivery is late.")
        ∷ [])
      0 end

unfoldable pub c_000020 : Value
unfolding convo
c_000020 =
    convo "c-000020" globex "email"
      ((role_text "customer" "The report totals look wrong.")
        ∷ (role_text "agent" "Which report and which period?")
        ∷ (role_text "customer"
            "Monthly summary, February. Actually I had a filter applied — it's fine.")
        ∷ [])
      0 end

unfoldable pub c_000021 : Value
unfolding convo
c_000021 =
    convo "c-000021" acme "chat"
      ((role_text_seq "customer" "First message about a damaged item." 0)
        ∷ (role_text_seq "agent" "Sorry to hear that — can you share a photo?" 3)
        ∷ (role_text_seq "customer" "Photo attached. The corner is crushed." 1)
        ∷ (role_text_seq "agent" "Thanks, I'll arrange a replacement." 2)
        ∷ (role_text_seq "customer" "Great, thank you." 2)
        ∷ [])
      0 end

unfoldable pub c_000022 : Value
unfolding convo
c_000022 =
    convo "c-000022" acme "chat"
      ((role_text "customer" "😡😡😡")
        ∷ (role_text "agent" "I can see you're frustrated. What's happened?")
        ∷ (role_text "customer" "?!?!")
        ∷ (role_text "agent" "Could you tell me a little more so I can help?")
        ∷ (role_text "customer" "👍")
        ∷ (role_text "customer" "...")
        ∷ [])
      0 end

unfoldable pub c_000023 : Value
unfolding convo
c_000023 =
    convo "c-000023" globex "email"
      ((role_text "customer" "Oh fantastic, another outage. Just what I needed on a Monday.")
        ∷ (role_text "agent" "Apologies for the disruption — we're investigating now.")
        ∷ (role_text "customer" "No, honestly, it's not like we don't have deadlines or anything.")
        ∷ (role_text "agent" "Understood. I'll update you as soon as I have a root cause.")
        ∷ (role_text "customer" "Wonderful. Can't wait.")
        ∷ (role_text "customer" "I wouldn't say I'm not unhappy about this.")
        ∷ [])
      0 end

unfoldable pub c_000024 : Value
unfolding convo
c_000024 =
    convo "c-000024" globex "email"
      ((role_text "customer" "Bonjour, ma commande n'est jamais arrivée et personne ne me répond.")
        ∷ (role_text "agent" "Je suis désolé pour ce retard. Je vérifie le suivi tout de suite.")
        ∷ (role_text "customer" "C'est inadmissible, j'attends depuis trois semaines.")
        ∷ (role_text "agent"
            "Je comprends votre frustration. Je vous envoie un remplacement aujourd'hui.")
        ∷ (role_text "customer" "Merci beaucoup, c'est très gentil de votre part.")
        ∷ [])
      0 end

unfoldable pub c_000025 : Value
unfolding convo
c_000025 =
    convo "c-000025" globex "chat"
      ((role_text "customer" "注文した商品がまだ届いていません。とても困っています。")
        ∷ (role_text "agent" "ご不便をおかけして申し訳ございません。配送状況を確認いたします。")
        ∷ (role_text "customer" "早急に対応してください。")
        ∷ (role_text "agent" "本日中に再発送の手続きをいたします。")
        ∷ (role_text "customer" "ありがとうございます。助かりました。")
        ∷ [])
      0 end

unfoldable pub c_000026 : Value
unfolding convo
c_000026 =
    convo "c-000026" globex "chat"
      ((role_text "customer" "Hola, I need to change the delivery address por favor.")
        ∷ (role_text "agent" "Of course — what's the new address?")
        ∷ (role_text "customer"
            "Ya lo cambié en la web pero the confirmation email shows the old one.")
        ∷ (role_text "agent" "The email is cached; the shipment will use the updated address.")
        ∷ (role_text "customer" "Perfecto, gracias!")
        ∷ [])
      0 end
