-- ===== src/Lib.antt =====
-- Punah-Pustak is a marketplace for second-hand books. This library models its web client, the
-- TypeScript application under frontend/src, and proves what its parts promise.
--
-- The parts and their files
--   Api.Client      frontend/src/api/client.ts, tokenStore.ts, errors.ts. `World` holds the module
--                   variables (`accessToken`, `refreshInFlight`, whether the two handlers are
--                   registered), the traffic and every call made so far, each at the `await` where
--                   it stands; `step` is one event: a call, an answer, the end of the refresh.
--   Api.Endpoints   frontend/src/api/listings.ts, users.ts, auth.ts, admin.ts and buildUrl: the request
--                   of each endpoint function, and the types that it is given (`Api.Endpoints.Types`).
--   Api.Schema      frontend/src/api/schema.ts: the paths and operations of the server.
--                   `Api.Schema.Conformance` sets the endpoints against them.
--   Hooks           frontend/src/hooks/useListings.ts, useAdmin.ts, useProfile.ts: the keys of cached
--                   queries and what mutations invalidate; `Hooks.Cache` sets them against a server.
--   Auth            frontend/src/auth/AuthContext.tsx. `Auth` is the provider's state with the
--                   pending `loadCurrentUser` calls; `step` is the settling of one promise or one
--                   call of the context's functions.
--   Session         Auth and Api.Client run as one system: the provider's calls are jobs of the
--                   client, the token is the client's, the client's notices are heard by the
--                   provider. What awaited a call goes on at any later event.
--   App             frontend/src/App.tsx, auth/ProtectedRoute.tsx and the redirect of LoginPage.tsx.
--                   The matching of a path to a route is React Router's and a parameter (`Router`).
--   Shell           frontend/src/components/Layout.tsx, Footer.tsx, Logo.tsx: the header, the menu and
--                   the footer around every page.
--   Listings        frontend/src/lib/listingLabels.ts, components/ConditionMeter.tsx.
--   Ui              frontend/src/components and lib: form errors, pagination, the listing form, the
--                   password, registration and login forms, the image field, the debounce hook,
--                   the focus of dialogs (`Ui.Modal`, where `Tab` outside the trap is a parameter),
--                   the photo frame and the listing card; how a control is tied to its
--                   label and message (`Ui.Controls`), and media queries.
--                   `Ui.View` is what a component renders: its parts in order, with their events.
--   Pages           frontend/src/pages: the home page, the browse page, the create and the edit page,
--                   the page of a listing, a seller's own listings, the profile, the two
--                   moderation pages, and the pages of login and registration
--                   (`Pages.Account`). `Screen` modules hold what a page renders.
--   Js, Common      what the source uses of JavaScript; lists, options, objects.
--
-- How they interact: the pages call the API client through hooks; the client's two handlers are
-- set by the provider of Auth (events `session_expired` and `password_change_demanded` there, the
-- notices of `Api.Client` here); the guard of App reads the provider's state.
--
-- Asynchrony: a handler is cut at its `await`s, and the settling of each promise is an event. The
-- theorems over runs quantify over sequences of events in any order; a condition on the events is
-- stated where there is one. A call is known by its method and path (`CallTarget`); its query and its
-- body are those of `Api.Endpoints`.
--
-- Numbers: counts and pages are natural numbers; prices stay texts, and what `Number(text)` gives
-- is a parameter (`Js.Numbers`). Ids of users and listings are strings. Lengths of passwords are in
-- UTF-16 units, as in JavaScript. Fuel occurs in `App.settle` only, which follows redirects; three
-- are enough for every state and place.
--
-- Between the components: `Shell.Reach` sets the links of the header against the routes and guards
-- of `App`; `Pages.Home.Links` the links of the home page against the query of the browse page;
-- `Pages.EditListing.Guards` the edit page against the buttons of the listing's page;
-- `Api.Endpoints.Refreshing` the endpoints against the retry of `Api.Client`; `Pages.Profile` runs
-- with the session of `Auth`; `Session` composes `Auth`, `Api.Client` and, in `Session.Expiry` and
-- `Session.Login`, the guards of `App`; `Api.Schema.Answers` sets the declared answers against the
-- client.
--
-- Not modelled: layout and styles, and which of two renderings a width shows; the Python service
-- under backend, which answers requests as it likes here; TanStack Query, React Router, the reading
-- and writing of URLs and the browser's network stack, which are parameters where the code depends
-- on them; the configuration, which is glue; of the entry point only the restore that it starts is
-- modelled. A provider is mounted once: a second mount would have a `cancelled` flag of its own. Of
-- two calls that wait for one refresh the older one goes on first.
mod Common
pub mod Js
pub mod Api
pub mod Listings
pub mod Ui
pub mod Auth
pub mod App
pub mod Hooks
pub mod Pages
pub mod Session
pub mod Shell
