-- ===== src/Dataset/Samples/Malformed.antt =====
-- data/make_dataset.py: the documents that are malformed.
use sb_poc.Prelude.{pos, [], ◌∷◌}
use sb_poc.Json.{Value, null, int, str, arr, obj, nil, cons, end, field}
use sb_poc.Dataset.{ts, convo, role_text}
use sb_poc.Dataset.Samples.{acme, globex}

unfoldable pub c_000029 : Value
unfolding ts
c_000029 = obj (
    field "conversation_id" (str "c-000029") (
      field "tenant_id" (str acme)
        (field "channel" (str "chat") (field "started_at" (str (ts 0)) end))))

unfoldable pub c_000030 : Value
unfolding ts
c_000030 = obj (
    field "conversation_id" (str "c-000030") (
      field "tenant_id" (str acme) (
        field "channel" (str "chat")
          (field "started_at" (str (ts 0)) (field "turns" (str "My order is late") end)))))

unfoldable pub c_000031 : Value
unfolding ts
c_000031 = obj (
    field "conversation_id" (str "c-000031") (
      field "tenant_id" (str acme) (
        field "channel" (str "email") (
          field "started_at" (str (ts 0)) (
            field "turns"
              (arr (
                cons
                  (obj (
                    field "seq" (int (pos 0)) (
                      field "role" (str "customer") (
                        field "ts" (str (ts 0))
                          (field "text" (str "The item arrived broken.") end)))))
                  (cons
                    (obj (
                      field "seq" (int (pos 1))
                        (field "role" (str "agent") (field "text" (str "Sorry about that.") end))))
                    (cons
                      (obj (
                        field "seq" (int (pos 2)) (
                          field "role" (str "customer")
                            (field "ts" (str (ts 80)) (field "text" null end)))))
                      (cons
                        (obj (
                          field "seq" (str "3") (
                            field "role" (str "shopper") (
                              field "ts" (str "not-a-timestamp")
                                (field "text" (int (pos 42)) end)))))
                        (cons
                          (obj (
                            field "role" (str "customer") (
                              field "ts" (str (ts 160)) (field "text" (str "Still waiting.") end))))
                          nil))))))
              end)))))

unfoldable pub c_000032 : Value
unfolding convo
c_000032 =
    convo "c-000032" globex "chat"
      ((role_text "bot" "Hi! I'm the automated assistant. How can I help?")
        ∷ (role_text "bot" "I didn't understand that. Transferring you.")
        ∷ [])
      0 end
