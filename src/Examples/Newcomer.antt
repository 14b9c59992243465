-- ===== src/Examples/Newcomer.antt =====
-- Examples of the theorems about a signup (routers/auth.py) and about a phone number
-- (services/paystack.py): a third restaurant joins the platform.
use karibu.Prelude.{
  ℕ, ◌+◌, ◌≡◌, refl, true, none, some, List, ◌∷◌, ◌++◌, arith, ltb, select, select_all, strip,
  length,
}
use karibu.Api.{ok, after}
use karibu.Subscription.{Subscription, has_access}
use karibu.Billing.{days}
use karibu.Admin.{Platform, subscription_of}
use karibu.Signup.{RegisterRequest, Draws, register}
use karibu.Signup.Again.{HasLink, register_twice}
use karibu.Passwords.{codes}
use karibu.Paystack.{country, normalize_phone}
use karibu.Paystack.Phone.{normalize_phone_lem}
use karibu.Examples.Door.{ascii, toy}
use karibu.Examples.Account.{settings}
use karibu.Examples.Operator.{platform}

abbrev baraka : RegisterRequest
baraka = record {
  full_name = "Baraka";
  email = "baraka@karibu.test";
  password = "Karibu#2024";
  phone = some "0712345678";
  billing_phone = none;
}

abbrev first : Draws
first = record {
  restaurant_id = 3;
  user_id = 30;
  subscription_id = 7;
  token_hash = 500;
  password_hash = 11;
}

abbrev second : Draws
second = record {
  restaurant_id = 4;
  user_id = 31;
  subscription_id = 8;
  token_hash = 501;
  password_hash = 11;
}

abbrev signed_up : Platform
signed_up = after (register ascii toy settings 24 baraka first 1000) platform

register_twice_example :
    ((sub : Subscription) × (select (subscription_of 3) signed_up.billing.subscriptions ≡ some sub)
      × (has_access sub 500000 ≡ ltb 500000 (1000 + days 7)))
    × ((p'' : Platform) × (register ascii toy settings 24 baraka second 1060 signed_up ≡ ok p'')
        × (p''.billing.subscriptions ≡ signed_up.billing.subscriptions)
        × (p''.billing.restaurants ≡ signed_up.billing.restaurants)
        × (length p''.billing.users ≡ length signed_up.billing.users)
        × HasLink p'' "baraka@karibu.test" first second 87460)
unfolding karibu.Prelude.strip register karibu.Passwords.password_problem
    karibu.Passwords.after_rules karibu.Passwords.failed_password_rules
    karibu.Passwords.special_characters karibu.Passwords.quality_problem
    karibu.Passwords.common_passwords
register_twice_example =
    register_twice ascii toy settings 24 baraka first second 1000 1060 500000 platform signed_up
      refl refl refl refl

normalize_phone_lem_example :
    (lead rest : List ℕ) × (normalize_phone "0712 345-678" ≡ 43 ∷ country ++ rest)
    × (length rest ≡ 9)
    × (select_all ascii.isdigit (codes (strip "0712 345-678")) ≡ lead ++ rest)
unfolding karibu.Prelude.strip karibu.Billing.Routes.looks_like_mpesa
normalize_phone_lem_example =
    normalize_phone_lem ascii.isdigit "0712 345-678" (λ c h. ground arith)
      (
        refl,
        (refl, (refl, (refl, (refl, (refl, (refl, (refl, (refl, (refl, (refl, (refl, tt))))))))))),
      )
      refl
