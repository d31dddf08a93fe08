-- ===== src/Shell/Links.antt =====
-- Where the links of the header and the footer lead.
use punah_pustak.Common.{String, Bool, true, false, ◌≡◌, refl, not}
use punah_pustak.Auth.{AuthState}
use punah_pustak.Ui.View.{View, Leads, Leads-append, when}
use punah_pustak.Shell.{
  LayoutEvent, Session, out, unsettled, signed_in, session, signed_in_links, account_links,
  account_controls, mobile_account, mobile_nav, header, footer_account, footer, layout,
  is_admin_route,
}

module _ (P : String → Type 0) where
  -- The places that a session's links are to, beside the public ones.
  abbrev pub Account : Session → Type 0
  Account (signed_in b) = P "/my-listings" × P "/profile" × (b ≡ true → P "/admin/users")
  Account _ = P "/login" × P "/register"

  abbrev pub Public : Type 0
  Public = P "#main-content" × P "/" × P "/listings" × P "/listings/new"

  Leads-when : (b : Bool) (v : View LayoutEvent) → (b ≡ true → Leads P v) → Leads P (when b v)
  Leads-when true v h = h refl
  Leads-when false v h = tt

  Leads-signed_in_links : (b : Bool) → Account (signed_in b) → Leads P (signed_in_links b)
  Leads-signed_in_links b h = (h.0, (h.1, Leads-when b _ (λ e. (h.2 e, tt))))

  Leads-account_links : (s : Session) → Account s → Leads P (account_links s)
  Leads-account_links (signed_in b) h = Leads-signed_in_links b h
  Leads-account_links out h = tt
  Leads-account_links unsettled h = tt

  Leads-account_controls : (s : Session) → Account s → Leads P (account_controls s)
  Leads-account_controls (signed_in b) h = (tt, tt)
  Leads-account_controls out h = (h.0, (tt, tt))
  Leads-account_controls unsettled h = tt

  Leads-mobile_account : (s : Session) → Account s → Leads P (mobile_account s)
  Leads-mobile_account (signed_in b) h =
      Leads-append P (signed_in_links b) _ (Leads-signed_in_links b h) (tt, tt)
  Leads-mobile_account out h = (h.0, (h.1, tt))
  Leads-mobile_account unsettled h = (h.0, (h.1, tt))

  Leads-footer_account : (s : Session) → Account s → Leads P (footer_account s)
  Leads-footer_account (signed_in b) h = (h.0, tt)
  Leads-footer_account out h = (h.0, tt)
  Leads-footer_account unsettled h = (h.0, tt)

  module _ (at : Public) where
    Leads-mobile_nav : (s : Session) → Account s → Leads P (mobile_nav s)
    Leads-mobile_nav s h = (at.2, (at.3, Leads-mobile_account s h))

    Leads-header : (s : AuthState) (o : Bool) → Account (session s) → Leads P (header s o)
    unfolding header
    Leads-header s o h = (
      at.0,
      (
        at.1,
        (
          at.2,
          (
            at.3,
            Leads-append P (account_links (session s)) _ (Leads-account_links (session s) h) (
                Leads-append P (account_controls (session s)) _
                  (Leads-account_controls (session s) h)
                  (tt, Leads-when o _ (λ _. Leads-mobile_nav (session s) h))),
          ),
        ),
      ),
    )

    Leads-footer : (s : AuthState) → Account (session s) → Leads P (footer s)
    unfolding footer
    Leads-footer s h = (tt, (tt, (at.2, (at.3, Leads-footer_account (session s) h))))

    pub Leads-layout :
        (s : AuthState) (o : Bool) (pathname : String) (outlet : View LayoutEvent)
        → Account (session s)
        → Leads P outlet
        → Leads P (layout s o pathname outlet)
    unfolding layout
    Leads-layout s o pathname outlet h k = Leads-append P (header s o) _ (Leads-header s o h) (
        Leads-append P outlet _ k
          (Leads-when (not (is_admin_route pathname)) _ (λ _. Leads-footer s h)))
